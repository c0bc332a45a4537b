-- ===== src/Service/Sync/Steps.antt =====
-- One deletion of the loop over the clusters that the configuration does not name.
use fabric8_cluster.Common.{ℕ, ◌≡◌, ◌≢◌, ◌⊎◌, ◌∙◌, inl, inr, none, arith, true, false}
use fabric8_cluster.Common.{nat_eq}
use fabric8_cluster.Errors.{Error, ok, err}
use fabric8_cluster.Platform.{Platform, IsLawful}
use fabric8_cluster.Platform.Tables.{IsDurable, IsReliable}
use fabric8_cluster.Exec.{World}
use fabric8_cluster.Exec.Inversion.{handle_split}
use fabric8_cluster.Repository.Clusters
use fabric8_cluster.Repository.Clusters.Deletion.{
  Removes, delete-Removes, delete_refused, delete_reliable,
}
use fabric8_cluster.Repository.Clusters.Invariant.{IsClean, Removes-IsClean}
use fabric8_cluster.Transaction.{in_transaction}
use fabric8_cluster.Transaction.Atomicity.{
  in_transaction_kept, in_transaction_err, in_transaction_ok, in_transaction_reliable,
  commit-either,
}
use fabric8_cluster.Service.Sync.{delete_gone}

module _ (P : Platform) where
  -- One step from `s` to `t` either did nothing or deleted the row `i`.
  abbrev pub MayRemove : P.State → P.State → ℕ → Type 0
  MayRemove s t i = (t ≡ s) ⊎ Removes P s t i

module _ (P : Platform) (L : IsLawful P) (i : ℕ) (w w' : World P.State)
    (clean : IsClean P w.store) where
  delete_gone_ok :
      delete_gone P i w ≡ (ok tt, w') → MayRemove P w.store w'.store i × (P.row w'.store i ≡ none)
  unfolding delete_gone
  delete_gone_ok e = elim (handle_split (Clusters.delete P i) _ _ w (ok tt, w') e) [
    | inl (u, v, deleted, rest) ↦
        let removes = delete-Removes P L i w v clean.no_nil deleted in
        let same : v ≡ w' = ground arith in
        rw (← same) (inr removes, ground (arith, removes.rows i))
    | inr (x, v, lost, rest) ↦
        let (same, missing) = delete_refused P L i w v clean.no_nil x lost in
        (inl (ground arith), ground (arith, missing))
  ]

module _ (P : Platform) (L : IsLawful P) (i : ℕ) (w w' : World P.State)
    (outside : w.in_transaction ≡ false) (clean : IsClean P w.store) where
  -- A deletion that returns no error did nothing or deleted the row. If it was committed, the row
  -- is gone.
  pub delete_step_ok :
      in_transaction P (delete_gone P i) w ≡ (ok tt, w')
      → MayRemove P w.store w'.store i
        × (w'.in_transaction ≡ false)
        × (IsDurable P.db → P.row w'.store i ≡ none)
  delete_step_ok e =
      let (v, ran, kept, flag) = in_transaction_ok P L (delete_gone P i) w w' tt outside e in
      let (moved, gone) = delete_gone_ok P L i (record w { in_transaction = true }) v clean ran in
      (
        elim (commit-either P L w.store v.store) [
          | inl done_all ↦ rw (kept ∙ done_all) moved
          | inr lost ↦ inl (kept ∙ lost)
        ],
        flag,
        λ D.
            let (u, ran', kept', _) =
              in_transaction_kept P L D (delete_gone P i) w w' tt outside e in
            rw kept' (delete_gone_ok P L i (record w { in_transaction = true }) u clean ran').1,
      )

  pub delete_step_err :
      (x : Error)
      → in_transaction P (delete_gone P i) w ≡ (err x, w')
      → MayRemove P w.store w'.store i × (w'.in_transaction ≡ false)
  delete_step_err x e =
      let (same, flag) = in_transaction_err P L (delete_gone P i) w w' x outside e in
      (inl same, flag)

  -- With a reliable database there is no error.
  pub delete_step_reliable :
      IsReliable P.db → (x : Error) → in_transaction P (delete_gone P i) w ≢ (err x, w')
  unfolding delete_gone
  delete_step_reliable R x e =
      let (v, ran) = in_transaction_reliable P L R (delete_gone P i) w w' x outside e in
      elim (handle_split (Clusters.delete P i) _ _ _ (err x, v) ran) [
        | inl (u, v', deleted, rest) ↦ cc
        | inr (y, v', lost, rest) ↦ ground (
          arith,
          delete_reliable P L i (record w { in_transaction = true }) v' clean.no_nil R y lost,
        )
      ]

module _ (P : Platform) (L : IsLawful P) where
  pub MayRemove-IsClean : (s t : P.State) (i : ℕ) → MayRemove P s t i → IsClean P s → IsClean P t
  MayRemove-IsClean s t i (inl same) clean = rw same clean
  MayRemove-IsClean s t i (inr removes) clean = Removes-IsClean P L s t i clean removes
