-- ===== src/Repository/Clusters/Working.antt =====
-- On a database whose statements succeed, CreateOrSave succeeds.
use native.Mathlib.Decide.{ℕ_discrete}
use fabric8_cluster.Common.{
  if◌then◌else◌, ℕ, suc, ◌≡◌, ◌≢◌, ◌∙◌, sym, none, some, arith, inl, inr, ◌==◌, nat_eq, refl,
}
use fabric8_cluster.Errors.{ok, Fetch-cases}
use fabric8_cluster.Model.{Cluster, nil_uuid}
use fabric8_cluster.Platform.{Platform, IsLawful}
use fabric8_cluster.Platform.Tables.{IsWorking}
use fabric8_cluster.Exec.{World}
use fabric8_cluster.Repository.Normalize.{normalize}
use fabric8_cluster.Repository.Normalize.Laws.{
  normalize_stamped, normalize-cluster_id, normalize-url,
}
use fabric8_cluster.Repository.Clusters.{
  create, update, find_by_url, create_or_save, insert_normalized, draw_uuid,
}

module _ (P : Platform) (L : IsLawful P) (W : IsWorking P.db) (c n : Cluster) (w : World P.State)
    (normal : normalize P.urls c ≡ ok n) (url_given : n.url ≢ "") (app_dns_given : n.app_dns ≢ "")
    (new : P.row w.store (if c.cluster_id == nil_uuid then P.new_v4 w.drawn else c.cluster_id)
      ≡ none) where
  update_works :
      (old : Cluster)
      → P.row w.store old.cluster_id ≡ some old
      → old.url ≡ n.url
      → (r : Cluster) × (w' : World P.State) × (update P old c w ≡ (ok r, w'))
  unfolding update
  update_works old at own =
      let full : Cluster = record n {
        cluster_id = old.cluster_id;
        created_at = old.created_at;
        updated_at = old.updated_at;
      } in
      let (r, t, saved) =
        W.save_cluster_works w.store full old at
          (λ i d at' same.
            L.constrained.unique_url w.store i old.cluster_id d old at' at (same ∙ sym own))
          url_given app_dns_given in
      (r, record w { store = t }, rw (normal, saved) refl)

  create_works :
      ((i : ℕ) (d : Cluster) → P.row w.store i ≡ some d → d.url ≢ n.url)
      → (r : Cluster) × (w' : World P.State) × (create P c w ≡ (ok r, w'))
  unfolding create draw_uuid insert_normalized
  create_works none_at = elim (ℕ_discrete c.cluster_id nil_uuid) [
    | yes blank ↦
        let id : ℕ = P.new_v4 w.drawn in
        let named : Cluster = record n {
          created_at = c.created_at;
          updated_at = c.updated_at;
          cluster_id = id;
        } in
        let made : normalize P.urls (record c { cluster_id = id }) ≡ ok named =
          normalize_stamped P.urls c n id c.created_at c.updated_at normal in
        let (r, t, inserted) =
          W.insert_cluster_works w.store named (ground (arith, new, blank)) none_at url_given
            app_dns_given in
        (r, record w { store = t; drawn = suc w.drawn }, ground (arith, blank, made, inserted))
    | no given ↦
        let same : n.cluster_id ≡ c.cluster_id = normalize-cluster_id P.urls c n normal in
        let (r, t, inserted) =
          W.insert_cluster_works w.store n (ground (arith, new, given, same)) none_at url_given
            app_dns_given in
        (r, record w { store = t }, ground (arith, given, normal, inserted))
  ]

  pub create_or_save_works :
      (r : Cluster) × (w' : World P.State) × (create_or_save P c w ≡ (ok r, w'))
  unfolding create_or_save find_by_url
  create_or_save_works =
      let slashed : n.url ≡ P.urls.add_trailing_slash c.url = normalize-url P.urls c n normal in
      elim (Fetch-cases (P.find_by_url w.store (P.urls.add_trailing_slash c.url))) [
        | inl (old, found) ↦
            let (at, own) = L.reading.find_by_url_done w.store _ old found in
            let (r, w', ran) = update_works old at (own ∙ sym slashed) in (r, w', rw found ran)
        | inr (inl lost) ↦
            let (r, w', ran) = create_works (λ i d at same.
              L.reading.find_by_url_missing w.store _ i d lost at (same ∙ slashed)) in
            (r, w', rw lost ran)
        | inr (inr (m, broken)) ↦ absurd (W.find_by_url_works w.store _ m broken)
      ]
