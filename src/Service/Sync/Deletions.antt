-- ===== src/Service/Sync/Deletions.antt =====
-- The loop that deletes the clusters which the configuration does not name.
use fabric8_cluster.Common.{
  ℕ, String, ◌≡◌, ◌≢◌, ◌∙◌, sym, ap, subst, inl, inr, refl, none, some, List, ◌∷◌, arith, Among,
}
use fabric8_cluster.Common.{nat_eq}
use fabric8_cluster.Model.{Cluster}
use fabric8_cluster.Platform.{Platform}
use fabric8_cluster.Repository.Clusters.Invariant.{IsClean}
use fabric8_cluster.Service.Sync.Steps.{MayRemove}
use fabric8_cluster.Service.Sync.Progress.{Kept, Covered}

module _ (P : Platform) (s t : P.State) (urls : List String) (del : List Cluster) (d : Cluster)
    (p : Kept P s urls (d ∷ del)) (clean : IsClean P t) (moved : MayRemove P s t d.cluster_id) where
  -- A row with another id stays.
  pub stays : (j : ℕ) (c : Cluster) → P.row s j ≡ some c → j ≢ d.cluster_id → P.row t j ≡ some c
  stays j c at other = elim moved [
    | inl same ↦ rw same at
    | inr removes ↦ ground (arith, removes.rows j)
  ]

  was : (j : ℕ) (c : Cluster) → P.row t j ≡ some c → P.row s j ≡ some c
  was j c at = elim moved [
    | inl same ↦ rw same at at
    | inr removes ↦ ground (arith, removes.rows j)
  ]

  pub clash :
      {u : String} (c : Cluster)
      → P.row s c.cluster_id ≡ some c
      → c.url ≡ u
      → Among u urls
      → c.cluster_id ≢ d.cluster_id
  clash c at url m same =
      let (at_d, free) = p.pending d (inl refl) in
      let is_d : c ≡ d = ground arith in
      free (subst (λ u. Among u urls) (sym url ∙ ap (λ c. c.url) is_d) m)

  delete_taken :
      (u : String) → Among u urls → (c : Cluster) × (P.row t c.cluster_id ≡ some c) × (c.url ≡ u)
  delete_taken u m =
      let (c, at, url) = p.taken u m in (c, stays c.cluster_id c at (clash c at url m), url)

  pub delete-Kept : Kept P t urls del
  delete-Kept = record {
    clean = clean;
    taken = delete_taken;
    pending = λ e m.
        let (at, free) = p.pending e (inr m) in
        (stays e.cluster_id e at (λ same. p.distinct.0 e m (sym same)), free);
    distinct = p.distinct.1;
  }

  pub delete-Covered :
      P.row t d.cluster_id ≡ none → Covered P s urls (d ∷ del) → Covered P t urls del
  delete-Covered gone covered i c at = elim (covered i c (was i c at)) [
    | inl m ↦ inl m
    | inr (x, inl same, id) ↦ ground arith
    | inr (x, inr m, id) ↦ inr (x, m, id)
  ]
