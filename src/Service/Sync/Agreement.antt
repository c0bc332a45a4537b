-- ===== src/Service/Sync/Agreement.antt =====
-- After CreateOrSaveClusterFromConfig the table of clusters agrees with the configuration.
use fabric8_cluster.Common.{
  ℕ, String, ◌≡◌, ◌⊎◌, ap, subst, inl, inr, refl, none, some, List, [], ◌∷◌, arith, Among, false,
}
use fabric8_cluster.Errors.{ok, Fetch-cases}
use fabric8_cluster.Model.{Cluster}
use fabric8_cluster.Platform.{Platform, IsLawful}
use fabric8_cluster.Platform.Tables.{IsDurable, IsReliable}
use fabric8_cluster.Exec.{World}
use fabric8_cluster.Exec.Inversion.{bind_ok}
use fabric8_cluster.Repository.Clusters
use fabric8_cluster.Repository.Clusters.Invariant.{IsClean}
use fabric8_cluster.Service.Sync.{save_all, create_or_save_cluster_from_config}
use fabric8_cluster.Service.Sync.Progress.{Kept, Covered}
use fabric8_cluster.Service.Sync.Outcome.{
  taken_by, save_all_ok, delete_all-Kept, delete_all-Covered,
}

module _ (P : Platform) where
  still_taken :
      (u : String) (cs : List Cluster) (urls : List String)
      → Among u urls
      → Among u (taken_by P cs urls)
  unfolding taken_by
  still_taken u [] urls m = m
  still_taken u (c ∷ cs) urls m = still_taken u cs (P.urls.add_trailing_slash c.url ∷ urls) (inr m)

  pub taken-Among :
      (c : Cluster) (cs : List Cluster) (urls : List String)
      → Among c cs
      → Among (P.urls.add_trailing_slash c.url) (taken_by P cs urls)
  unfolding taken_by
  taken-Among c [] urls m = absurd m
  taken-Among c (d ∷ cs) urls (inl e) =
      still_taken _ cs _ (inl (ap (λ x. P.urls.add_trailing_slash x.url) e))
  taken-Among c (d ∷ cs) urls (inr m) = taken-Among c cs _ m

  Among-taken :
      (u : String) (cs : List Cluster) (urls : List String)
      → Among u (taken_by P cs urls)
      → Among u urls ⊎ ((c : Cluster) × Among c cs × (u ≡ P.urls.add_trailing_slash c.url))
  unfolding taken_by
  Among-taken u [] urls m = inl m
  Among-taken u (d ∷ cs) urls m = elim (Among-taken u cs _ m) [
    | inl (inl e) ↦ inr (d, inl refl, e)
    | inl (inr old) ↦ inl old
    | inr (c, mc, e) ↦ inr (c, inr mc, e)
  ]

module _ (P : Platform) (L : IsLawful P) (w v : World P.State) (del : List Cluster)
    (clean : IsClean P w.store) where
  pub list-Kept :
      Clusters.list P none w ≡ (ok del, v)
      → (v ≡ w) × Kept P w.store [] del × Covered P w.store [] del
  unfolding Clusters.list
  list-Kept e = elim (Fetch-cases (P.find_all w.store none)) [
    | inl (cs, all) ↦
        let same : del ≡ cs = ground arith in
        (
          ground arith,
          record {
            clean = clean;
            taken = λ u m. absurd m;
            pending =
                λ d m. (L.listing.find_all_sound w.store cs d all (subst (Among d) same m), λ x. x);
            distinct = rw same (L.listing.find_all_once w.store cs all);
          },
          λ i c at. inr (
            c,
            rw same (L.listing.find_all_complete w.store cs i c all at),
            L.constrained.primary_key w.store i c at,
          ),
        )
    | inr (inl empty) ↦
        let same : del ≡ [] = ground arith in
        (
          ground arith,
          record {
            clean = clean;
            taken = λ u m. absurd m;
            pending = λ d m. absurd (subst (Among d) same m);
            distinct = rw same tt;
          },
          λ i c at. ground (arith, L.listing.find_all_missing w.store i),
        )
    | inr (inr (m, broken)) ↦ ground arith
  ]

module _ (P : Platform) (L : IsLawful P) (D : IsDurable P.db) (config : List Cluster)
    (w w' : World P.State) (outside : w.in_transaction ≡ false) (clean : IsClean P w.store) where
  agree :
      create_or_save_cluster_from_config P config w ≡ (ok tt, w')
      → Kept P w'.store (taken_by P config []) []
        × (IsReliable P.db → Covered P w'.store (taken_by P config []) [])
  unfolding create_or_save_cluster_from_config
  agree e =
      let (del, v, listed, rest) = bind_ok (Clusters.list P none) _ w tt w' e in
      let (same, k, covered) = list-Kept P L w v del clean listed in
      let (left, u, saved, rest') = bind_ok (save_all P config del) _ v tt w' rest in
      let (k', covers, flag) =
        save_all_ok P L D config w u [] del left outside k (rw same at saved) in
      (
        delete_all-Kept P L left u w' (ok tt) _ flag k' rest',
        λ R. delete_all-Covered P L R left u w' (ok tt) _ flag k' (covers covered) rest',
      )

  -- If the database keeps its laws and commits succeed, the table is clean, no transaction is
  -- running, and create_or_save_cluster_from_config returns no error, then afterwards the table is
  -- clean and every cluster of the configuration has a row at its url (with a trailing slash),
  -- whether or not deletions failed.
  pub config_saved :
      create_or_save_cluster_from_config P config w ≡ (ok tt, w')
      → IsClean P w'.store
        × ((c : Cluster)
            → Among c config
            → (r : Cluster) × (P.row w'.store r.cluster_id ≡ some r)
              × (r.url ≡ P.urls.add_trailing_slash c.url))
  config_saved e = let (k, _) = agree e in (k.clean, λ c m. k.taken _ (taken-Among P c config [] m))

  -- If the database keeps its laws, transactions, reads by id and deletions always succeed, the
  -- table is clean, no transaction is running, and create_or_save_cluster_from_config returns no
  -- error, then afterwards every row is at the url (with a trailing slash) of a cluster of the
  -- configuration.
  pub config_only :
      IsReliable P.db
      → create_or_save_cluster_from_config P config w ≡ (ok tt, w')
      → (i : ℕ) (r : Cluster) → P.row w'.store i ≡ some r
      → (c : Cluster) × Among c config × (r.url ≡ P.urls.add_trailing_slash c.url)
  config_only R e i r at = elim ((agree e).1 R i r at) [
    | inl m ↦ elim (Among-taken P r.url config [] m) [
      | inl never ↦ absurd never
      | inr found ↦ found
    ]
    | inr (d, never, _) ↦ absurd never
  ]
