-- ===== src/Repository/Identities/Links.antt =====
-- What the methods do to the links.
use fabric8_cluster.Common.{ℕ, String, ◌≡◌, ◌&&◌, Bool, some, true, false, arith, inl, inr}
use fabric8_cluster.Common.{◌==◌, nat_eq, if◌then◌else◌}
use fabric8_cluster.Errors.{Error, ok, err, is_not_found, Reply-cases}
use fabric8_cluster.Model.{Cluster, IdentityCluster}
use fabric8_cluster.Platform.{Platform, IsLawful}
use fabric8_cluster.Exec.{World}
use fabric8_cluster.Repository.Clusters
use fabric8_cluster.Repository.Identities.{load, create, delete}

module _ (P : Platform) where
  -- From `s` to `t` one entry of the relation was set, and nothing else changed.
  pub record Sets (s t : P.State) (x i : ℕ) (value : Bool) : Type 0 where
    pub rows : (j : ℕ) → P.row t j ≡ P.row s j
    pub links : (y j : ℕ) → P.linked t y j ≡ (if y == x && j == i then value else P.linked s y j)

module _ (P : Platform) (L : IsLawful P) (x i : ℕ) (w w' : World P.State) where
  pub load_ok :
      (l : IdentityCluster) → load P x i w ≡ (ok l, w') → (P.linked w.store x i ≡ true) × (w' ≡ w)
  unfolding load
  load_ok l e = ground (arith, L.reading.find_link_done w.store x i l)

  pub load_err :
      (e : Error)
      → load P x i w ≡ (err e, w')
      → (w' ≡ w) × (is_not_found e ≡ true → P.linked w.store x i ≡ false)
  unfolding load
  load_err e h = ground (arith, L.reading.find_link_missing w.store x i)

  pub create_ok :
      create P x i w ≡ (ok tt, w')
      → Sets P w.store w'.store x i true × (P.linked w.store x i ≡ false)
  unfolding create
  create_ok e =
      let (fresh, rows, links) = L.writing.insert_link_done w.store x i w'.store (ground arith) in
      (record { rows = rows; links = links }, fresh)

  pub create_err : (e : Error) → create P x i w ≡ (err e, w') → w'.store ≡ w.store
  unfolding create
  create_err e h = elim (Reply-cases (P.insert_link w.store x i)) [
    | inl (u, t, same) ↦ ground arith
    | inr (f, t, same) ↦ ground (arith, L.writing.insert_link_failed w.store x i f t same)
  ]

module _ (P : Platform) (L : IsLawful P) (x : ℕ) (u : String) (w w' : World P.State) where
  -- A successful delete takes away the link to the row whose url is exactly the text given.
  pub delete_ok :
      delete P x u w ≡ (ok tt, w')
      → (i : ℕ) × (c : Cluster) × (P.row w.store i ≡ some c)
        × (c.url ≡ u)
        × (P.linked w.store x i ≡ true)
        × Sets P w.store w'.store x i false
  unfolding delete Clusters.find_by_url
  delete_ok e = elim (Reply-cases (P.delete_link w.store x u)) [
    | inl (n, t, same) ↦ elim (L.writing.delete_link_done w.store x n u t same) [
      | inl (zero, back, none_there) ↦ ground arith
      | inr (i, c, some_gone, at, url, was, rows, links) ↦ (
        i,
        c,
        at,
        url,
        was,
        record { rows = λ j. ground (arith, rows j); links = λ y j. ground (arith, links y j) },
      )
    ]
    | inr (f, t, same) ↦ ground arith
  ]

  -- A delete that fails changes nothing. Unless the driver failed, no row with exactly this url is
  -- linked.
  pub delete_err :
      (e : Error)
      → delete P x u w ≡ (err e, w')
      → (w'.store ≡ w.store)
        × (is_not_found e ≡ true
            → (i : ℕ) (c : Cluster) → P.row w.store i ≡ some c
            → c.url ≡ u
            → P.linked w.store x i ≡ false)
  unfolding delete Clusters.find_by_url
  delete_err e h = elim (Reply-cases (P.delete_link w.store x u)) [
    | inl (n, t, same) ↦ elim (L.writing.delete_link_done w.store x n u t same) [
      | inl (zero, back, none_there) ↦ (ground arith, λ _. none_there)
      | inr (i, c, some_gone, at, url, was, rows, links) ↦ (ground arith, ground arith)
    ]
    | inr (f, t, same) ↦
        (ground (arith, L.writing.delete_link_failed w.store x u f t same), ground arith)
  ]
