-- ===== src/Service/Sync/Progress.antt =====
-- The loop over the configuration: after each cluster, its url is taken and the list of clusters to
-- delete holds the other rows.
use native.Mathlib.Decide.{ℕ_discrete}
use fabric8_cluster.Common.{
  ℕ, String, ◌≡◌, ◌≢◌, ◌⊎◌, ◌∙◌, sym, subst, inl, inr, none, some, List, ◌∷◌, arith, Among,
}
use fabric8_cluster.Common.{nat_eq}
use fabric8_cluster.Model.{Cluster}
use fabric8_cluster.Platform.{Platform, IsLawful}
use fabric8_cluster.Platform.Tables.{Distinct}
use fabric8_cluster.Repository.Clusters.Upsert.{Puts}
use fabric8_cluster.Repository.Clusters.Invariant.{IsClean}
use fabric8_cluster.Service.Sync.{keep_url}
use fabric8_cluster.Service.Sync.Pending.{
  Among-keep_url, keep_url-Among, keep_url-Distinct, keep_url-differs,
}

module _ (P : Platform) where
  -- `urls` are taken by the configuration: each has its row. `del` is to be deleted.
  pub record Kept (s : P.State) (urls : List String) (del : List Cluster) : Type 0 where
    pub clean : IsClean P s
    pub taken :
        (u : String) → Among u urls → (c : Cluster) × (P.row s c.cluster_id ≡ some c) × (c.url ≡ u)
    pub pending :
        (d : Cluster) → Among d del → (P.row s d.cluster_id ≡ some d) × (¬ Among d.url urls)
    pub distinct : Distinct del

  -- Every row is at a url taken or is to be deleted.
  abbrev pub Covered : P.State → List String → List Cluster → Type 0
  Covered s urls del =
      (i : ℕ) (c : Cluster)
      → P.row s i ≡ some c
      → Among c.url urls ⊎ ((d : Cluster) × Among d del × (d.cluster_id ≡ i))

module _ (P : Platform) (L : IsLawful P) (s t : P.State) (urls : List String) (del : List Cluster)
    (c r : Cluster) (p : Kept P s urls del) (puts : Puts P s t c r) (clean : IsClean P t)
    (same_url : r.url ≡ P.urls.add_trailing_slash c.url)
    (origin : ((old : Cluster) × (P.row s r.cluster_id ≡ some old) × (old.url ≡ r.url))
      ⊎ ((P.row s r.cluster_id ≡ none)
          × ((i : ℕ) (d : Cluster) → P.row s i ≡ some d → d.url ≢ r.url))) where
  -- A row with the url of `r` has its id.
  at_url : (i : ℕ) (d : Cluster) → P.row s i ≡ some d → d.url ≡ r.url → i ≡ r.cluster_id
  at_url i d at e = elim origin [
    | inl (old, at_old, url) ↦
        L.constrained.unique_url s i r.cluster_id d old at at_old (e ∙ sym url)
    | inr (free, none_at) ↦ absurd (none_at i d at e)
  ]

  -- and a row with its id has its url.
  at_id : (d : Cluster) → P.row s r.cluster_id ≡ some d → d.url ≡ r.url
  at_id d at = ground (arith, origin)

  pending_url : (d : Cluster) → Among d del → P.urls.add_trailing_slash d.url ≡ d.url
  pending_url d m = (p.clean.normal d.cluster_id d (p.pending d m).0).url_normal

  left_differs : (d : Cluster) → Among d (keep_url P c.url del) → d.url ≢ r.url
  left_differs d m e =
      keep_url-differs P c.url d del p.distinct
        (λ a b ma mb ea eb.
          L.constrained.unique_url s a.cluster_id b.cluster_id a b (p.pending a ma).0
            (p.pending b mb).0 (sym (pending_url a ma) ∙ ea ∙ sym eb ∙ pending_url b mb))
        m (pending_url d (Among-keep_url P c.url d del m) ∙ e ∙ same_url)

  pub save-Covered : Covered P s urls del → Covered P t (r.url ∷ urls) (keep_url P c.url del)
  save-Covered covered i d at = elim (ℕ_discrete i r.cluster_id) [
    | yes same ↦ inl (inl (ground (arith, puts.stored i)))
    | no other ↦
        let before : P.row s i ≡ some d = ground (arith, puts.stored i) in
        elim (covered i d before) [
          | inl seen ↦ inl (inr seen)
          | inr (x, mx, id) ↦
              let is_d : x ≡ d = ground (arith, (p.pending x mx).0) in
              inr (
                x,
                keep_url-Among P c.url x del mx (λ h.
                    other (
                      at_url i d before (rw (← is_d) (sym (pending_url x mx) ∙ h ∙ sym same_url)))),
                id,
              )
        ]
  ]

  save_taken :
      (u : String)
      → Among u (r.url ∷ urls)
      → (d : Cluster) × (P.row t d.cluster_id ≡ some d) × (d.url ≡ u)
  save_taken u (inl e) = (r, ground (arith, puts.stored r.cluster_id), sym e)
  save_taken u (inr m) =
      let (d, at, d_url) = p.taken u m in
      elim (ℕ_discrete d.cluster_id r.cluster_id) [
        | yes same ↦ (
          r,
          ground (arith, puts.stored r.cluster_id),
          sym (at_id d (subst (λ i. P.row s i ≡ some d) same at)) ∙ d_url,
        )
        | no other ↦ (d, ground (arith, puts.stored d.cluster_id), d_url)
      ]

  save_pending :
      (d : Cluster)
      → Among d (keep_url P c.url del)
      → (P.row t d.cluster_id ≡ some d) × (¬ Among d.url (r.url ∷ urls))
  save_pending d m =
      let (at, free) = p.pending d (Among-keep_url P c.url d del m) in
      let differs : d.url ≢ r.url = left_differs d m in
      let other : d.cluster_id ≢ r.cluster_id =
        (λ same. differs (at_id d (subst (λ i. P.row s i ≡ some d) same at))) in
      (ground (arith, puts.stored d.cluster_id), elim [ inl e ↦ differs e | inr a ↦ free a ])

  pub save-Kept : Kept P t (r.url ∷ urls) (keep_url P c.url del)
  save-Kept = record {
    clean = clean;
    taken = save_taken;
    pending = save_pending;
    distinct = keep_url-Distinct P c.url del p.distinct;
  }
