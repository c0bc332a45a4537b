-- ===== src/Repository/Clusters/Deletion.antt =====
-- What deleting a cluster does to the tables.
use fabric8_cluster.Common.{ℕ, ◌≡◌, ◌≢◌, none, some, true, false, arith, inl, inr}
use fabric8_cluster.Common.{◌==◌, nat_eq, if◌then◌else◌}
use fabric8_cluster.Errors.{Error, ok, err, is_not_found, Reply-cases, Fetch-cases}
use fabric8_cluster.Model.{Cluster, nil_uuid}
use fabric8_cluster.Platform.{Platform, IsLawful}
use fabric8_cluster.Platform.Tables.{IsReliable}
use fabric8_cluster.Exec.{World}
use fabric8_cluster.Exec.Inversion.{handle_split}
use fabric8_cluster.Repository.Clusters.{load, delete, delete_found}
use fabric8_cluster.Repository.Clusters.Lookup.{load_ok, load_err}

module _ (P : Platform) where
  -- From `s` to `t` the row of `i` went, with every link to it, and nothing else changed.
  pub record Removes (s t : P.State) (i : ℕ) : Type 0 where
    pub present : P.row s i ≢ none
    pub rows : (j : ℕ) → P.row t j ≡ (if j == i then none else P.row s j)
    pub links : (x j : ℕ) → P.linked t x j ≡ (if j == i then false else P.linked s x j)

module _ (P : Platform) (L : IsLawful P) (i : ℕ) (w w' : World P.State)
    (no_nil : P.row w.store nil_uuid ≡ none) where
  delete_found_ok :
      (c : Cluster)
      → P.row w.store i ≡ some c
      → delete_found P i w ≡ (ok tt, w')
      → Removes P w.store w'.store i
  unfolding delete_found
  delete_found_ok c at e = elim (Reply-cases (P.delete_cluster w.store i)) [
    | inl (n, t, same) ↦
        let (_, rows, links) = L.writing.delete_cluster_done w.store i n t (ground arith) same in
        record {
          present = ground arith;
          rows = λ j. ground (arith, rows j);
          links = λ x j. ground (arith, links x j);
        }
    | inr (f, t, same) ↦ ground arith
  ]

  delete_found_err :
      (c : Cluster) (x : Error)
      → P.row w.store i ≡ some c
      → delete_found P i w ≡ (err x, w')
      → (w'.store ≡ w.store) × (is_not_found x ≡ false)
  unfolding delete_found
  delete_found_err c x at e = elim (Reply-cases (P.delete_cluster w.store i)) [
    | inl (n, t, same) ↦
        let (zero_means, _, _) = L.writing.delete_cluster_done w.store i n t (ground arith) same in
        ground (arith, zero_means)
    | inr (f, t, same) ↦ ground (arith, L.writing.delete_cluster_failed w.store i f t same)
  ]

  -- On a lawful platform whose table has no nil uuid: if the repository's delete succeeds, the row
  -- was there, it went with every link to it, and nothing else changed.
  pub delete-Removes : delete P i w ≡ (ok tt, w') → Removes P w.store w'.store i
  unfolding delete
  delete-Removes e = elim (handle_split (load P i) _ _ w (ok tt, w') e) [
    | inl (c, v, found, rest) ↦
        let (at, same) = load_ok P L.reading w i c v found in delete_found_ok c at (ground arith)
    | inr (y, v, lost, rest) ↦ ground arith
  ]

  -- On a lawful platform whose table has no nil uuid: if the repository's delete returns an error,
  -- nothing changed, and there is no such row if the error is a "not found".
  pub delete_refused :
      (x : Error)
      → delete P i w ≡ (err x, w')
      → (w'.store ≡ w.store) × (is_not_found x ≡ true → P.row w.store i ≡ none)
  unfolding delete
  delete_refused x e = elim (handle_split (load P i) _ _ w (err x, w') e) [
    | inl (c, v, found, rest) ↦
        let (at, same) = load_ok P L.reading w i c v found in
        ground (arith, delete_found_err c x at)
    | inr (y, v, lost, rest) ↦ ground (arith, load_err P L.reading w i y v lost)
  ]

  -- Where reads and deletions always succeed, the only error is "not found".
  pub delete_reliable :
      IsReliable P.db → (x : Error) → delete P i w ≡ (err x, w') → is_not_found x ≡ true
  unfolding delete delete_found load
  delete_reliable R x e =
      let (n, t, done_works) = R.delete_cluster_works w.store i in
      elim (Fetch-cases (P.find_by_id w.store i)) [
        | inl (c, at) ↦ ground arith
        | inr (inl none_at) ↦ ground arith
        | inr (inr (m, broken)) ↦ absurd (R.find_by_id_works w.store i m broken)
      ]
