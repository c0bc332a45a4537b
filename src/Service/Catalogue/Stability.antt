-- ===== src/Service/Catalogue/Stability.antt =====
-- Clusters keep their ids: a consequence of the catalogue's rules, and so of the service.
use fabric8_cluster.Common.{
  String, some, List, [], ◌∷◌, ◌≡◌, All, inl, inr, arith, refl, Bool-cases, ◌==◌, string_eq, ◌∙◌,
}
use fabric8_cluster.Model.{Cluster}
use fabric8_cluster.Platform.{Platform, IsLawful}
use fabric8_cluster.Platform.Tables.{IsDurable}
use fabric8_cluster.Exec.{World}
use fabric8_cluster.Service.Invariant.{IsSound}
use fabric8_cluster.Service.Catalogue.{
  set_link, joined, not_joined, parted, not_parted, Catalogue, put, Call, drop, Answer, perform,
  Identified, known, fresh, Allows, saved, not_saved, dropped, not_dropped, looked_up,
  not_looked_up,
}
use fabric8_cluster.Service.Catalogue.Rows.{Represents}
use fabric8_cluster.Service.Catalogue.Refinement.{perform-Matched, perform-IsSound}

module _ (P : Platform) where
  -- Not a call of `Delete`.
  abbrev pub IsHarmless : Call P → Type 0
  IsHarmless (drop ctx id) = ⊥
  IsHarmless _ = Unit

  unfoldable pub after : List (Call P) → World P.State → World P.State
  after [] w = w
  after (q ∷ qs) w = after qs (perform P q w).1

  -- The same cluster, perhaps with other content.
  abbrev Same : Cluster → Cluster → Type 0
  Same d e = (e.cluster_id ≡ d.cluster_id) × (e.created_at ≡ d.created_at)

  put-Same :
      (k : Catalogue) (r : Cluster) (u : String) (d : Cluster)
      → Identified P k r
      → k.clusters u ≡ some d
      → (e : Cluster) × ((put r k).clusters u ≡ some e) × Same d e
  unfolding put
  put-Same k r u d (known old at id created) found = elim (Bool-cases (u == r.url)) [
    | inl same ↦ (r, ground arith, (ground (arith, at, id), ground (arith, at, created)))
    | inr apart ↦ (d, rw apart found, (refl, refl))
  ]
  put-Same k r u d (fresh free other) found = elim (Bool-cases (u == r.url)) [
    | inl same ↦ ground arith
    | inr apart ↦ (d, rw apart found, (refl, refl))
  ]

  Allows-Same :
      (k k' : Catalogue) (q : Call P) (a : Answer) (u : String) (d : Cluster)
      → IsHarmless q
      → Allows P k q a k'
      → k.clusters u ≡ some d
      → (e : Cluster) × (k'.clusters u ≡ some e) × Same d e
  unfolding set_link
  Allows-Same k _ _ _ u d fine (saved ctx c r account valid content id) found =
      put-Same k r u d id found
  Allows-Same k _ _ _ u d fine (not_saved ctx c e) found = (d, found, (refl, refl))
  Allows-Same k _ _ _ u d fine (dropped ctx x account at) found = absurd fine
  Allows-Same k _ _ _ u d fine (not_dropped ctx id e missing) found = absurd fine
  Allows-Same k _ _ _ u d fine (looked_up ctx url c account at) found = (d, found, (refl, refl))
  Allows-Same k _ _ _ u d fine (not_looked_up ctx url e missing) found = (d, found, (refl, refl))
  Allows-Same k _ _ _ u d fine (joined ctx x url ignore c account at strict) found =
      (d, found, (refl, refl))
  Allows-Same k _ _ _ u d fine (not_joined ctx x url ignore e) found = (d, found, (refl, refl))
  Allows-Same k _ _ _ u d fine (parted ctx x url c account at was) found = (d, found, (refl, refl))
  Allows-Same k _ _ _ u d fine (not_parted ctx x url e) found = (d, found, (refl, refl))

module _ (P : Platform) (L : IsLawful P) (D : IsDurable P.db) where
  -- On a lawful platform where commits succeed, in a sound state whose tables hold exactly the
  -- clusters and links of a catalogue: after any calls of create_or_save_cluster,
  -- find_by_url_for_auth, link_identity_to_cluster and remove_identity_to_cluster_link, each
  -- cluster of the catalogue still has a row with its id, at its url and with its creation time.
  pub after-Same :
      (qs : List (Call P)) (k : Catalogue) (w : World P.State) (u : String) (d : Cluster)
      → IsSound P w
      → Represents P w.store k
      → All (IsHarmless P) qs
      → k.clusters u ≡ some d
      → (e : Cluster) × (P.row (after P qs w).store d.cluster_id ≡ some e)
        × (e.url ≡ u)
        × (e.created_at ≡ d.created_at)
  unfolding after
  after-Same [] k w u d sound rep harmless at =
      let (row, url) = rep.stored u d at in (d, row, url, refl)
  after-Same (q ∷ qs) k w u d sound rep harmless at =
      let (k', allows, rep') = perform-Matched P L D q k w sound rep in
      let (e, at', (id, created)) = Allows-Same P k k' q _ u d harmless.0 allows at in
      let (f, row, url, created') =
        after-Same qs k' _ u e (perform-IsSound P L q w sound) rep' harmless.1 at' in
      (f, rw (← id) row, url, created' ∙ created)
