-- ===== src/Service/Sync/Outcome.antt =====
-- What CreateOrSaveClusterFromConfig achieves.
use fabric8_cluster.Common.{
  ℕ, String, ◌≡◌, ◌≢◌, ◌⊎◌, ◌∙◌, sym, subst, inl, inr, none, some, List, [], ◌∷◌, arith, true,
  false,
}
use fabric8_cluster.Common.{if◌then◌else◌, ◌==◌, nat_eq}
use fabric8_cluster.Errors.{Result, ok}
use fabric8_cluster.Model.{Cluster, nil_uuid}
use fabric8_cluster.Platform.{Platform, IsLawful}
use fabric8_cluster.Platform.Tables.{IsDurable, IsReliable}
use fabric8_cluster.Exec.{World}
use fabric8_cluster.Exec.Inversion.{handle_split, bind_ok}
use fabric8_cluster.Repository.Clusters
use fabric8_cluster.Repository.Normalize.Laws.{normalize-url}
use fabric8_cluster.Repository.Clusters.Upsert.{create_or_save_ok}
use fabric8_cluster.Repository.Clusters.Invariant.{create_or_save-IsClean}
use fabric8_cluster.Transaction.{in_transaction}
use fabric8_cluster.Transaction.Atomicity.{in_transaction_kept}
use fabric8_cluster.Service.Sync.{from_config, keep_url, save_all, delete_gone, delete_all}
use fabric8_cluster.Service.Sync.Progress.{Kept, Covered, save-Kept, save-Covered}
use fabric8_cluster.Service.Sync.Steps.{
  delete_step_ok, delete_step_err, delete_step_reliable, MayRemove-IsClean,
}
use fabric8_cluster.Service.Sync.Deletions.{delete-Kept, delete-Covered}

-- The urls of the configuration, as they are stored, after those of `urls`.
unfoldable pub taken_by : (P : Platform) → List Cluster → List String → List String
taken_by P [] urls = urls
taken_by P (c ∷ cs) urls = taken_by P cs (P.urls.add_trailing_slash c.url ∷ urls)

module _ (P : Platform) (L : IsLawful P) (D : IsDurable P.db) where
  -- Where the saved row was before, in terms of its own url.
  origin_at :
      (c r : Cluster) (w : World P.State)
      → r.url ≡ P.urls.add_trailing_slash c.url
      → (((old : Cluster) × (P.row w.store r.cluster_id ≡ some old)
            × (old.url ≡ P.urls.add_trailing_slash c.url)
            × (r.created_at ≡ old.created_at))
          ⊎ ((P.row w.store r.cluster_id ≡ none)
              × (r.cluster_id
                  ≡ (if c.cluster_id == nil_uuid then P.new_v4 w.drawn else c.cluster_id))
              × ((i : ℕ) (d : Cluster)
                  → P.row w.store i ≡ some d
                  → d.url ≢ P.urls.add_trailing_slash c.url)))
      → ((old : Cluster) × (P.row w.store r.cluster_id ≡ some old) × (old.url ≡ r.url))
        ⊎ ((P.row w.store r.cluster_id ≡ none)
            × ((i : ℕ) (d : Cluster) → P.row w.store i ≡ some d → d.url ≢ r.url))
  origin_at c r w e (inl (old, at, url, _)) = inl (old, at, url ∙ sym e)
  origin_at c r w e (inr (free, _, none_at)) = inr (free, λ i d at h. none_at i d at (h ∙ e))

  save_step :
      (c r : Cluster) (w w' : World P.State) (urls : List String) (del : List Cluster)
      → w.in_transaction ≡ false
      → Kept P w.store urls del
      → in_transaction P (Clusters.create_or_save P (from_config c)) w ≡ (ok r, w')
      → Kept P w'.store (P.urls.add_trailing_slash c.url ∷ urls) (keep_url P c.url del)
        × (Covered P w.store urls del
            → Covered P w'.store (P.urls.add_trailing_slash c.url ∷ urls) (keep_url P c.url del))
        × (w'.in_transaction ≡ false)
  unfolding from_config
  save_step c r w w' urls del outside k e =
      let (v, ran, kept, flag) =
        in_transaction_kept P L D (Clusters.create_or_save P (from_config c)) w w' r outside e in
      let w₁ : World P.State = record w { in_transaction = true } in
      let (puts, origin) = create_or_save_ok P L.reading L.writing (from_config c) r w₁ v ran in
      let clean = create_or_save-IsClean P L (from_config c) w₁ (ok r) v ran k.clean in
      let same_url : r.url ≡ P.urls.add_trailing_slash c.url =
        normalize-url P.urls _ r puts.content in
      let from_where = origin_at (from_config c) r w₁ same_url origin in
      let k' =
        save-Kept P L w.store v.store urls del (from_config c) r k puts clean same_url from_where in
      let covers =
        save-Covered P L w.store v.store urls del (from_config c) r k puts clean same_url
          from_where in
      (
        rw kept (subst (λ u. Kept P v.store (u ∷ urls) (keep_url P c.url del)) same_url k'),
        λ covered. rw kept (
            subst (λ u. Covered P v.store (u ∷ urls) (keep_url P c.url del)) same_url
              (covers covered)),
        flag,
      )

  -- The first loop.
  pub save_all_ok :
      (cs : List Cluster) (w w' : World P.State) (urls : List String) (del left : List Cluster)
      → w.in_transaction ≡ false
      → Kept P w.store urls del
      → save_all P cs del w ≡ (ok left, w')
      → Kept P w'.store (taken_by P cs urls) left
        × (Covered P w.store urls del → Covered P w'.store (taken_by P cs urls) left)
        × (w'.in_transaction ≡ false)
  unfolding save_all taken_by
  save_all_ok [] w w' urls del left outside k e =
      let same_left : del ≡ left = ground arith in
      let same : w ≡ w' = ground arith in
      rw (← same_left, ← same) (k, (λ covered. covered), outside)
  save_all_ok (c ∷ cs) w w' urls del left outside k e =
      let (r, v, saved, rest) =
        bind_ok (in_transaction P (Clusters.create_or_save P (from_config c))) _ w left w' e in
      let (k', covers, flag) = save_step c r w v urls del outside k saved in
      let (k'', covers', flag') =
        save_all_ok cs v w' (P.urls.add_trailing_slash c.url ∷ urls) (keep_url P c.url del) left
          flag k' rest in
      (k'', (λ covered. covers' (covers covered)), flag')

module _ (P : Platform) (L : IsLawful P) where
  -- The second loop keeps the rows of the configuration, whatever fails.
  pub delete_all-Kept :
      (del : List Cluster) (w w' : World P.State) (q : Result Unit) (urls : List String)
      → w.in_transaction ≡ false
      → Kept P w.store urls del
      → delete_all P del w ≡ (q, w')
      → Kept P w'.store urls []
  unfolding delete_all
  delete_all-Kept [] w w' q urls outside k e = let same : w ≡ w' = ground arith in rw (← same) k
  delete_all-Kept (d ∷ del) w w' q urls outside k e =
      elim (handle_split (in_transaction P (delete_gone P d.cluster_id)) _ _ w (q, w') e) [
        | inl (u, v, ran, rest) ↦
            let (moved, flag, _) = delete_step_ok P L d.cluster_id w v outside k.clean ran in
            delete_all-Kept del v w' q urls flag
              (delete-Kept P w.store v.store urls del d k
                (MayRemove-IsClean P L _ _ _ moved k.clean) moved)
              rest
        | inr (x, v, ran, rest) ↦
            let (moved, flag) = delete_step_err P L d.cluster_id w v outside k.clean x ran in
            delete_all-Kept del v w' q urls flag
              (delete-Kept P w.store v.store urls del d k
                (MayRemove-IsClean P L _ _ _ moved k.clean) moved)
              rest
      ]

  -- With a reliable database it leaves no other row.
  pub delete_all-Covered :
      IsReliable P.db
      → (del : List Cluster) (w w' : World P.State) (q : Result Unit) (urls : List String)
      → w.in_transaction ≡ false
      → Kept P w.store urls del
      → Covered P w.store urls del
      → delete_all P del w ≡ (q, w')
      → Covered P w'.store urls []
  unfolding delete_all
  delete_all-Covered R [] w w' q urls outside k covered e =
      let same : w ≡ w' = ground arith in rw (← same) covered
  delete_all-Covered R (d ∷ del) w w' q urls outside k covered e =
      elim (handle_split (in_transaction P (delete_gone P d.cluster_id)) _ _ w (q, w') e) [
        | inl (u, v, ran, rest) ↦
            let (moved, flag, gone) = delete_step_ok P L d.cluster_id w v outside k.clean ran in
            let clean = MayRemove-IsClean P L w.store v.store d.cluster_id moved k.clean in
            delete_all-Covered R del v w' q urls flag
              (delete-Kept P w.store v.store urls del d k clean moved)
              (delete-Covered P w.store v.store urls del d k clean moved (gone R.durable) covered)
              rest
        | inr (x, v, ran, rest) ↦
            absurd (delete_step_reliable P L d.cluster_id w v outside k.clean R x ran)
      ]
