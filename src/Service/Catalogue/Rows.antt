-- ===== src/Service/Catalogue/Rows.antt =====
-- The tables of clusters and of links as a catalogue.
use native.Mathlib.Decide.{ℕ_discrete}
use fabric8_cluster.Common.{
  ℕ, Bool, ap, ◌&&◌, if◌then◌else◌, String, some, ◌==◌, string_eq, nat_eq, ◌≡◌, ◌≢◌, inl, inr,
  arith, sym, ◌∙◌, Option-cases, Bool-cases,
}
use fabric8_cluster.Model.{Cluster}
use fabric8_cluster.Platform.{Platform, IsLawful}
use fabric8_cluster.Repository.Clusters.Upsert.{Puts}
use fabric8_cluster.Repository.Clusters.Deletion.{Removes}
use fabric8_cluster.Service.Clusters.Saving.{Origin}
use fabric8_cluster.Service.Catalogue.{Catalogue, put, remove, set_link, Identified, known, fresh}

-- The tables hold the clusters of the catalogue, each at its url, its links, and nothing else.
pub record Represents (P : Platform) (s : P.State) (k : Catalogue) : Type 0 where
  pub listed : (i : ℕ) (c : Cluster) → P.row s i ≡ some c → k.clusters c.url ≡ some c
  pub joined : (x j : ℕ) → P.linked s x j ≡ k.linked x j
  pub stored :
      (u : String) (c : Cluster)
      → k.clusters u ≡ some c
      → (P.row s c.cluster_id ≡ some c) × (c.url ≡ u)

module _ (P : Platform) (L : IsLawful P) (s t : P.State) (k : Catalogue)
    (rep : Represents P s k) where
  pub Represents-same : t ≡ s → Represents P t k
  Represents-same e = rw e rep

  -- Where the id or the url of a cluster that is put in is known, both are those of one row.
  pub put-Represents :
      (c c' r : Cluster)
      → Puts P s t c' r
      → r.url ≡ P.urls.add_trailing_slash c.url
      → Origin P s c r
      → Represents P t (put r k)
  unfolding put
  put-Represents c c' r puts url origin = record {
    listed = listed;
    stored = stored;
    joined = λ x j. puts.links x j ∙ rep.joined x j;
  }
    where
      here : P.row t r.cluster_id ≡ some r
      here = ground (arith, puts.stored r.cluster_id)

      listed : (i : ℕ) (d : Cluster) → P.row t i ≡ some d → (put r k).clusters d.url ≡ some d
      listed i d at = elim (ℕ_discrete i r.cluster_id) [
        | yes same ↦ let e : r ≡ d = ground (arith, puts.stored i) in ground (arith, e)
        | no other ↦
            let before : P.row s i ≡ some d = ground (arith, puts.stored i) in
            elim (Bool-cases (d.url == r.url)) [
              | inl shared ↦
                  absurd
                    (other (L.constrained.unique_url t i r.cluster_id d r at here (ground arith)))
              | inr apart ↦ rw apart (rep.listed i d before)
            ]
      ]

      elsewhere :
          (u : String) (d : Cluster)
          → k.clusters u ≡ some d
          → u ≢ r.url
          → d.cluster_id ≢ r.cluster_id
      elsewhere u d at apart clash =
          let (row, own) = rep.stored u d at in
          elim origin [
            | inl (old, found, old_url, created) ↦
                ground (arith, row, own, found, old_url, url, clash, apart)
            | inr (free, new) ↦ ground (arith, row, free, clash)
          ]

      stored :
          (u : String) (d : Cluster)
          → (put r k).clusters u ≡ some d
          → (P.row t d.cluster_id ≡ some d) × (d.url ≡ u)
      stored u d at = elim (Bool-cases (u == r.url)) [
        | inl same ↦ let e : r ≡ d = ground arith in (rw (← e) here, ground (arith, e))
        | inr apart ↦
            let before : k.clusters u ≡ some d = ground arith in
            let (row, own) = rep.stored u d before in
            (
              ground (arith, puts.stored d.cluster_id, elsewhere u d before (ground arith), row),
              own,
            )
      ]

  pub Origin-Identified :
      (c r : Cluster) → r.url ≡ P.urls.add_trailing_slash c.url → Origin P s c r → Identified P k r
  Origin-Identified c r url (inl (old, found, old_url, created)) =
      known old (rw (url ∙ sym old_url) (rep.listed r.cluster_id old found))
        (sym (L.constrained.primary_key s r.cluster_id old found)) created
  Origin-Identified c r url (inr (free, new)) =
      fresh
        (elim (Option-cases (k.clusters r.url)) [
          | inl nothing ↦ nothing
          | inr (d, at) ↦
              let (row, own) = rep.stored r.url d at in absurd (new d.cluster_id d row (own ∙ url))
        ])
        (λ u d at clash. let (row, own) = rep.stored u d at in ground (arith, row, free, clash))

  pub remove-Represents :
      (d : Cluster)
      → P.row s d.cluster_id ≡ some d
      → Removes P s t d.cluster_id
      → Represents P t (remove d k)
  unfolding remove
  remove-Represents d at removes = record {
    listed = listed;
    stored = stored;
    joined = λ x j. ground (arith, removes.links x j, rep.joined x j);
  }
    where
      listed : (i : ℕ) (c : Cluster) → P.row t i ≡ some c → (remove d k).clusters c.url ≡ some c
      listed i c left =
          let other : i ≢ d.cluster_id = ground (arith, removes.rows i) in
          let before : P.row s i ≡ some c = ground (arith, removes.rows i) in
          elim (Bool-cases (c.url == d.url)) [
            | inl shared ↦
                absurd
                  (other (L.constrained.unique_url s i d.cluster_id c d before at (ground arith)))
            | inr apart ↦ rw apart (rep.listed i c before)
          ]

      stored :
          (u : String) (c : Cluster)
          → (remove d k).clusters u ≡ some c
          → (P.row t c.cluster_id ≡ some c) × (c.url ≡ u)
      stored u c found = elim (Bool-cases (u == d.url)) [
        | inl same ↦ ground arith
        | inr apart ↦
            let (row, own) = rep.stored u c (ground arith) in
            (ground (arith, removes.rows c.cluster_id, row, at, own), own)
      ]

  -- A link is set or taken away, and the rows stay.
  pub set_link-Represents :
      (x i : ℕ) (b : Bool)
      → ((j : ℕ) → P.row t j ≡ P.row s j)
      → ((y j : ℕ) → P.linked t y j ≡ (if y == x && j == i then b else P.linked s y j))
      → Represents P t (set_link x i b k)
  unfolding set_link
  set_link-Represents x i b rows links = record {
    listed = λ j c at. rep.listed j c (sym (rows j) ∙ at);
    stored = λ u c at. let (row, own) = rep.stored u c at in (rows c.cluster_id ∙ row, own);
    joined = λ y j. links y j ∙ ap (λ l. if y == x && j == i then b else l) (rep.joined y j);
  }
