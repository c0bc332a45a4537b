-- ===== src/Service/Sync/Contents.antt =====
-- What the rows of the configured clusters hold after CreateOrSaveClusterFromConfig.
use fabric8_cluster.Common.{
  String, ◌≡◌, ◌≢◌, ◌⊎◌, ◌∙◌, sym, subst, ap, inl, inr, none, some, List, [], ◌∷◌, arith, refl,
  Among, true, false, nat_eq,
}
use fabric8_cluster.Errors.{Result, ok}
use fabric8_cluster.Model.{Cluster}
use fabric8_cluster.Platform.{Platform, IsLawful}
use fabric8_cluster.Platform.Tables.{IsDurable}
use fabric8_cluster.Exec.{World}
use fabric8_cluster.Exec.Inversion.{handle_split, bind_ok}
use fabric8_cluster.Repository.Clusters
use fabric8_cluster.Repository.Clusters.Invariant.{IsClean}
use fabric8_cluster.Repository.Clusters.Upsert.{create_or_save_ok}
use fabric8_cluster.Repository.Normalize.{normalize}
use fabric8_cluster.Repository.Normalize.Laws.{normalize-url}
use fabric8_cluster.Transaction.{in_transaction}
use fabric8_cluster.Transaction.Atomicity.{in_transaction_kept}
use fabric8_cluster.Service.Sync.{
  from_config, save_all, delete_gone, delete_all, create_or_save_cluster_from_config,
}
use fabric8_cluster.Service.Sync.Progress.{Kept}
use fabric8_cluster.Service.Sync.Outcome.{taken_by, save_all_ok}
use fabric8_cluster.Service.Sync.Steps.{
  delete_step_ok, delete_step_err, MayRemove, MayRemove-IsClean,
}
use fabric8_cluster.Service.Sync.Deletions.{delete-Kept, stays, clash}
use fabric8_cluster.Service.Sync.Agreement.{list-Kept, taken-Among}

module _ (P : Platform) where
  -- The row holds what Normalize makes of the cluster, but for its id and its time stamps.
  pub record Holds (s : P.State) (c : Cluster) : Type 0 where
    pub stored_row : Cluster
    pub present : P.row s stored_row.cluster_id ≡ some stored_row
    pub content :
        normalize P.urls (record c {
          cluster_id = stored_row.cluster_id;
          created_at = stored_row.created_at;
          updated_at = stored_row.updated_at;
        })
        ≡ ok stored_row

  -- No cluster in the list goes by the url of `c`.
  abbrev pub Unrivalled : Cluster → List Cluster → Type 0
  Unrivalled c cs =
      (d : Cluster) → Among d cs → P.urls.add_trailing_slash d.url ≢ P.urls.add_trailing_slash c.url

  -- The last cluster of the list that goes by its url.
  abbrev pub IsLast : Cluster → List Cluster → Type 0
  IsLast c [] = ⊥
  IsLast c (d ∷ cs) = ((c ≡ d) × Unrivalled c cs) ⊎ IsLast c cs

  IsLast-Among : (c : Cluster) (cs : List Cluster) → IsLast c cs → Among c cs
  IsLast-Among c [] h = absurd h
  IsLast-Among c (d ∷ cs) (inl (e, alone)) = inl e
  IsLast-Among c (d ∷ cs) (inr h) = inr (IsLast-Among c cs h)

  Holds-url :
      (s : P.State) (c : Cluster) (h : Holds s c)
      → h.stored_row.url ≡ P.urls.add_trailing_slash c.url
  Holds-url s c h = normalize-url P.urls _ h.stored_row h.content

module _ (P : Platform) (L : IsLawful P) (D : IsDurable P.db) where
  -- The saved cluster is held; and one with another url is held as before.
  save_step-Holds :
      (d r : Cluster) (w v : World P.State)
      → w.in_transaction ≡ false
      → in_transaction P (Clusters.create_or_save P (from_config d)) w ≡ (ok r, v)
      → Holds P v.store d
        × ((c : Cluster)
            → P.urls.add_trailing_slash d.url ≢ P.urls.add_trailing_slash c.url
            → Holds P w.store c
            → Holds P v.store c)
        × (v.in_transaction ≡ false)
  unfolding from_config
  save_step-Holds d r w v outside e =
      let (u, ran, kept, flag) =
        in_transaction_kept P L D (Clusters.create_or_save P (from_config d)) w v r outside e in
      let (puts, origin) =
        create_or_save_ok P L.reading L.writing (from_config d) r
          (record w { in_transaction = true }) u ran in
      (
        record {
          stored_row = r;
          present = ground (arith, kept, puts.stored r.cluster_id);
          content = puts.content;
        },
        (λ c apart h.
            let other : h.stored_row.cluster_id ≢ r.cluster_id = (λ same. elim origin [
              | inl (old, at, url, created) ↦
                  let one : old ≡ h.stored_row = ground (arith, at, h.present, same) in
                  apart (sym url ∙ ap (λ x. x.url) one ∙ Holds-url P w.store c h)
              | inr (free, id, new) ↦ ground (arith, free, same, h.present)
            ]) in
            record {
              stored_row = h.stored_row;
              present = ground (arith, kept, puts.stored h.stored_row.cluster_id, other, h.present);
              content = h.content;
            }),
        flag,
      )

  -- The first loop keeps what is held, unless a cluster with the same url follows.
  save_all-keeps :
      (cs : List Cluster) (c : Cluster) (w w' : World P.State) (del left : List Cluster)
      → w.in_transaction ≡ false
      → Unrivalled P c cs
      → Holds P w.store c
      → save_all P cs del w ≡ (ok left, w')
      → Holds P w'.store c
  unfolding save_all
  save_all-keeps [] c w w' del left outside alone h e =
      let same : w ≡ w' = ground arith in rw (← same) h
  save_all-keeps (d ∷ cs) c w w' del left outside alone h e =
      let (r, v, saved, rest) =
        bind_ok (in_transaction P (Clusters.create_or_save P (from_config d))) _ w left w' e in
      let (_, keeps, flag) = save_step-Holds d r w v outside saved in
      save_all-keeps cs c v w' _ left flag (λ x m. alone x (inr m)) (keeps c (alone d (inl refl)) h)
        rest

  save_all-Holds :
      (cs : List Cluster) (c : Cluster) (w w' : World P.State) (del left : List Cluster)
      → w.in_transaction ≡ false
      → IsLast P c cs
      → save_all P cs del w ≡ (ok left, w')
      → Holds P w'.store c
  unfolding save_all
  save_all-Holds [] c w w' del left outside last e = absurd last
  save_all-Holds (d ∷ cs) c w w' del left outside last e =
      let (r, v, saved, rest) =
        bind_ok (in_transaction P (Clusters.create_or_save P (from_config d))) _ w left w' e in
      let (held, _, flag) = save_step-Holds d r w v outside saved in
      elim last [
        | inl (same, alone) ↦
            save_all-keeps cs c v w' _ left flag alone (subst (Holds P v.store) (sym same) held)
              rest
        | inr later ↦ save_all-Holds cs c v w' _ left flag later rest
      ]

module _ (P : Platform) (L : IsLawful P) where
  -- The second loop leaves rows alone whose urls are taken.
  delete_all-keeps :
      (del : List Cluster) (w w' : World P.State) (q : Result Unit) (urls : List String)
      (r : Cluster)
      → w.in_transaction ≡ false
      → Kept P w.store urls del
      → Among r.url urls
      → P.row w.store r.cluster_id ≡ some r
      → delete_all P del w ≡ (q, w')
      → P.row w'.store r.cluster_id ≡ some r
  unfolding delete_all
  delete_all-keeps [] w w' q urls r outside k m at e =
      let same : w ≡ w' = ground arith in rw (← same) at
  delete_all-keeps (d ∷ del) w w' q urls r outside k m at e =
      let step : (v : World P.State)
          → v.in_transaction ≡ false
          → MayRemove P w.store v.store d.cluster_id
          → delete_all P del v ≡ (q, w')
          → P.row w'.store r.cluster_id ≡ some r =
        (λ v flag moved rest.
          let clean = MayRemove-IsClean P L _ _ _ moved k.clean in
          delete_all-keeps del v w' q urls r flag
            (delete-Kept P w.store v.store urls del d k clean moved) m
            (stays P w.store v.store urls del d k clean moved r.cluster_id r at
              (clash P w.store v.store urls del d k clean moved r at refl m))
            rest) in
      elim (handle_split (in_transaction P (delete_gone P d.cluster_id)) _ _ w (q, w') e) [
        | inl (u, v, ran, rest) ↦
            let (moved, flag, _) = delete_step_ok P L d.cluster_id w v outside k.clean ran in
            step v flag moved rest
        | inr (x, v, ran, rest) ↦
            let (moved, flag) = delete_step_err P L d.cluster_id w v outside k.clean x ran in
            step v flag moved rest
      ]

  -- On a lawful platform where commits succeed, with a clean table and outside a transaction: if
  -- create_or_save_cluster_from_config returns no error, then every cluster of the configuration
  -- that no later one with its url (with a trailing slash) replaces has a row that holds what
  -- Normalize makes of it, but for its id and time stamps, whether or not deletions failed.
  pub config_held :
      (D : IsDurable P.db) (config : List Cluster) (w w' : World P.State)
      → w.in_transaction ≡ false
      → IsClean P w.store
      → create_or_save_cluster_from_config P config w ≡ (ok tt, w')
      → (c : Cluster) → IsLast P c config
      → Holds P w'.store c
  unfolding create_or_save_cluster_from_config
  config_held D config w w' outside clean e c last =
      let (del, v, listed, rest) = bind_ok (Clusters.list P none) _ w tt w' e in
      let (same, k, _) = list-Kept P L w v del clean listed in
      let (left, u, saved, rest') = bind_ok (save_all P config del) _ v tt w' rest in
      let flat : v.in_transaction ≡ false = ap (λ x. x.in_transaction) same ∙ outside in
      let (k', _, flag) = save_all_ok P L D config w u [] del left outside k (rw same at saved) in
      let h = save_all-Holds P L D config c v u del left flat last saved in
      let taken : Among h.stored_row.url (taken_by P config []) =
        rw (Holds-url P u.store c h) (taken-Among P c config [] (IsLast-Among P c config last)) in
      record {
        stored_row = h.stored_row;
        present = delete_all-keeps left u w' (ok tt) _ h.stored_row flag k' taken h.present rest';
        content = h.content;
      }
