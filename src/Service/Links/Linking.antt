-- ===== src/Service/Links/Linking.antt =====
-- What linking and unlinking an identity do to the tables.
use fabric8_cluster.Common.{
  ℕ, String, ◌≡◌, ◌&&◌, inl, inr, Bool, true, false, none, some, [], ◌∷◌, arith, Bool-cases,
  Option-cases,
}
use fabric8_cluster.Common.{if◌then◌else◌, ◌==◌, nat_eq}
use fabric8_cluster.Errors.{Error, ok, err}
use fabric8_cluster.Model.{Cluster}
use fabric8_cluster.Platform.{Platform, IsLawful, auth}
use fabric8_cluster.Platform.Tables.{IsDurable}
use fabric8_cluster.Exec.{World, ◌>>=◌}
use fabric8_cluster.Exec.Inversion.{handle_split, bind_ok}
use fabric8_cluster.Repository.Clusters
use fabric8_cluster.Repository.Clusters.Lookup.{find_by_url_ok, find_by_url_same}
use fabric8_cluster.Repository.Identities
use fabric8_cluster.Repository.Identities.Links.{Sets, load_ok, load_err, create_ok, delete_ok}
use fabric8_cluster.Transaction.{in_transaction}
use fabric8_cluster.Transaction.Atomicity.{in_transaction_err, in_transaction_kept}
use fabric8_cluster.Service.Validation.{validate_url}
use fabric8_cluster.Service.Links.{
  create_identity_cluster, link_found, link_identity_to_cluster, remove_identity_to_cluster_link,
}

module _ (P : Platform) where
  -- From `s` to `t` the link of `x` to `i` was made if it was missing, and nothing else changed.
  pub record Joins (s t : P.State) (x i : ℕ) : Type 0 where
    pub joined : P.linked t x i ≡ true
    pub rows : (j : ℕ) → P.row t j ≡ P.row s j
    pub others : (y j : ℕ) → P.linked t y j ≡ (if y == x && j == i then true else P.linked s y j)

module _ (P : Platform) (L : IsLawful P) (D : IsDurable P.db) (x i : ℕ) (w w' : World P.State)
    (outside : w.in_transaction ≡ false) where
  create_identity_cluster_ok :
      create_identity_cluster P x i w ≡ (ok tt, w')
      → Sets P w.store w'.store x i true × (P.linked w.store x i ≡ false)
  unfolding create_identity_cluster
  create_identity_cluster_ok e =
      let (v, ran, kept, _) = in_transaction_kept P L D _ w w' tt outside e in
      let (sets, fresh) = create_ok P L x i (record w { in_transaction = true }) v (ground arith) in
      (
        record {
          rows = λ j. ground (arith, sets.rows j);
          links = λ y j. ground (arith, sets.links y j);
        },
        fresh,
      )

  Sets-Joins : Sets P w.store w'.store x i true → Joins P w.store w'.store x i
  Sets-Joins sets = record {
    joined = ground (arith, sets.links x i);
    rows = sets.rows;
    others = sets.links;
  }

  link_found_ok :
      (ignore : Bool)
      → link_found P x ignore i w ≡ (ok tt, w')
      → Joins P w.store w'.store x i × (ignore ≡ false → P.linked w.store x i ≡ false)
  unfolding link_found
  link_found_ok false e =
      let (sets, fresh) = create_identity_cluster_ok e in (Sets-Joins sets, λ _. fresh)
  link_found_ok true e = elim (handle_split (Identities.load P x i) _ _ w (ok tt, w') e) [
    | inl (l, v, found, rest) ↦
        let (was, same) = load_ok P L x i w v l found in
        (
          record { joined = ground arith; rows = λ j. ground arith; others = λ y j. ground arith },
          ground arith,
        )
    | inr (z, v, lost, rest) ↦
        let (same, _) = load_err P L x i w v z lost in
        (Sets-Joins (create_identity_cluster_ok (ground arith)).0, ground arith)
  ]

module _ (P : Platform) (L : IsLawful P) (x i : ℕ) (w w' : World P.State)
    (outside : w.in_transaction ≡ false) where
  create_identity_cluster_err :
      (z : Error) → create_identity_cluster P x i w ≡ (err z, w') → w'.store ≡ w.store
  unfolding create_identity_cluster
  create_identity_cluster_err z e = (in_transaction_err P L _ w w' z outside e).0

  link_found_err :
      (ignore : Bool) (z : Error) → link_found P x ignore i w ≡ (err z, w') → w'.store ≡ w.store
  unfolding link_found
  link_found_err false z e = create_identity_cluster_err z e
  link_found_err true z e = elim (handle_split (Identities.load P x i) _ _ w (err z, w') e) [
    | inl (l, v, found, rest) ↦ ground arith
    | inr (y, v, lost, rest) ↦
        let (same, _) = load_err P L x i w v y lost in ground (arith, create_identity_cluster_err z)
  ]

module _ (P : Platform) (L : IsLawful P) (ctx : P.Context) (x : ℕ) (url : String)
    (w w' : World P.State) (outside : w.in_transaction ≡ false) where
  -- On a lawful platform where commits succeed, and outside a transaction: if
  -- link_identity_to_cluster succeeds, the caller is the Auth service, a row has the url with its
  -- trailing slash, the identity is linked to it and nothing else changed; unless told to ignore
  -- it, the link was not there before.
  pub link_identity_to_cluster_ok :
      IsDurable P.db
      → (ignore : Bool) → link_identity_to_cluster P ctx x url ignore w ≡ (ok tt, w')
      → (c : Cluster) × (P.row w.store c.cluster_id ≡ some c)
        × (c.url ≡ P.urls.add_trailing_slash url)
        × Joins P w.store w'.store x c.cluster_id
        × (ignore ≡ false → P.linked w.store x c.cluster_id ≡ false)
        × (P.is_specific_service_account ctx (auth ∷ []) ≡ true)
  unfolding link_identity_to_cluster
  link_identity_to_cluster_ok D ignore e =
      let (allowed, valid, run) : (P.is_specific_service_account ctx (auth ∷ []) ≡ true)
          × (validate_url P.urls url ≡ none)
          × ((Clusters.find_by_url P url >>= λ rc. link_found P x ignore rc.cluster_id) w
              ≡ (ok tt, w')) =
        (ground arith, ground arith, ground arith) in
      let (c, v, found, rest) = bind_ok (Clusters.find_by_url P url) _ w tt w' run in
      let (at, same_url, same) = find_by_url_ok P L.reading w url c v found in
      let (joins, strict) =
        link_found_ok P L D x c.cluster_id w w' outside ignore (rw same at rest) in
      (c, at, same_url, joins, strict, allowed)

  -- On a lawful platform where commits succeed, and outside a transaction: if
  -- remove_identity_to_cluster_link succeeds, the caller is the Auth service, a row has exactly the
  -- url given, the identity was linked to it, the link went and nothing else changed.
  pub remove_identity_to_cluster_link_ok :
      IsDurable P.db
      → remove_identity_to_cluster_link P ctx x url w ≡ (ok tt, w')
      → (i : ℕ) × (c : Cluster) × (P.row w.store i ≡ some c)
        × (c.url ≡ url)
        × (P.linked w.store x i ≡ true)
        × Sets P w.store w'.store x i false
        × (P.is_specific_service_account ctx (auth ∷ []) ≡ true)
  unfolding remove_identity_to_cluster_link
  remove_identity_to_cluster_link_ok D e =
      let run : in_transaction P (Identities.delete P x url) w ≡ (ok tt, w') = ground arith in
      let (v, ran, kept, _) =
        in_transaction_kept P L D (Identities.delete P x url) w w' tt outside run in
      let (i, c, at, same, was, sets) =
        delete_ok P L x url (record w { in_transaction = true }) v ran in
      (
        i,
        c,
        at,
        same,
        was,
        record {
          rows = λ j. ground (arith, sets.rows j);
          links = λ y j. ground (arith, sets.links y j);
        },
        ground arith,
      )

  -- On a lawful platform and outside a transaction: if remove_identity_to_cluster_link returns an
  -- error, the state of the database is unchanged.
  pub remove_identity_to_cluster_link_err :
      (z : Error) → remove_identity_to_cluster_link P ctx x url w ≡ (err z, w') → w'.store ≡ w.store
  unfolding remove_identity_to_cluster_link
  remove_identity_to_cluster_link_err z e =
      ground (arith, in_transaction_err P L (Identities.delete P x url) w w' z outside)

  -- On a lawful platform and outside a transaction: if link_identity_to_cluster returns an error,
  -- the state of the database is unchanged.
  pub link_identity_to_cluster_err :
      (ignore : Bool) (z : Error)
      → link_identity_to_cluster P ctx x url ignore w ≡ (err z, w')
      → w'.store ≡ w.store
  unfolding link_identity_to_cluster
  link_identity_to_cluster_err ignore z e =
      elim (Bool-cases (P.is_specific_service_account ctx (auth ∷ []))) [
        | inr refused ↦ ground arith
        | inl allowed ↦ elim (Option-cases (validate_url P.urls url)) [
          | inr (m, bad) ↦ ground arith
          | inl fine ↦
              elim (handle_split (Clusters.find_by_url P url) _ _ w (err z, w')
                (rw (allowed, fine, link_identity_to_cluster) at e)) [
                  | inr (y, v, lost, rest) ↦
                      let same : v ≡ w = find_by_url_same P L.reading w url (err y) v lost in
                      ground arith
                  | inl (c, v, found, rest) ↦
                      let same : v ≡ w = find_by_url_same P L.reading w url (ok c) v found in
                      link_found_err P L x c.cluster_id w w' outside ignore z (rw same at rest)
                ]
        ]
      ]
