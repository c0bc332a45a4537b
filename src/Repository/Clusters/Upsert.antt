-- ===== src/Repository/Clusters/Upsert.antt =====
-- What create, update and create_or_save write.
use native.Mathlib.Decide.{ℕ_discrete}
use fabric8_cluster.Common.{ℕ, suc, ◌≡◌, ◌≢◌, ◌⊎◌, none, some, arith, inl, inr}
use fabric8_cluster.Common.{◌==◌, nat_eq, if◌then◌else◌, Bool-cases}
use fabric8_cluster.Errors.{Result-cases, Reply-cases, Error, ok, err, is_not_found}
use fabric8_cluster.Model.{Cluster, nil_uuid}
use fabric8_cluster.Platform.{Platform}
use fabric8_cluster.Platform.Tables.{IsReading, IsWriting}
use fabric8_cluster.Exec.{World}
use fabric8_cluster.Exec.Inversion.{handle_split}
use fabric8_cluster.Repository.Clusters.Lookup.{
  find_by_url_ok, find_by_url_same, find_by_url_missing,
}
use fabric8_cluster.Repository.Normalize.{normalize}
use fabric8_cluster.Repository.Normalize.Laws.{normalize_stamped, normalize-cluster_id}
use fabric8_cluster.Repository.Clusters.{
  create, update, find_by_url, create_or_save, insert_normalized, draw_uuid,
}

module _ (P : Platform) where
  -- From `s` to `t` the row of `r` was put in and nothing else changed; `r` is what Normalize makes
  -- of `c`, but for its id and its time stamps.
  pub record Puts (s t : P.State) (c r : Cluster) : Type 0 where
    pub stored : (j : ℕ) → P.row t j ≡ (if j == r.cluster_id then some r else P.row s j)
    pub links : (x j : ℕ) → P.linked t x j ≡ P.linked s x j
    pub content :
        normalize P.urls (record c {
          cluster_id = r.cluster_id;
          created_at = r.created_at;
          updated_at = r.updated_at;
        })
        ≡ ok r

module _ (P : Platform) (W : IsWriting P.db) where
  update_normal :
      (old c n r : Cluster) (w w' : World P.State)
      → P.row w.store old.cluster_id ≡ some old
      → normalize P.urls c ≡ ok n
      → update P old c w ≡ (ok r, w')
      → Puts P w.store w'.store c r
        × (r.cluster_id ≡ old.cluster_id)
        × (r.created_at ≡ old.created_at)
  unfolding update
  update_normal old c n r w w' at normal e =
      let full : Cluster = record n {
        cluster_id = old.cluster_id;
        created_at = old.created_at;
        updated_at = old.updated_at;
      } in
      let (same, rows, links) = W.save_cluster_done w.store full r old w'.store at (ground arith) in
      (
        record {
          stored = λ j. ground (arith, rows j);
          links = links;
          content =
              ground
                (arith, normalize_stamped P.urls c n r.cluster_id r.created_at r.updated_at normal);
        },
        ground arith,
        ground arith,
      )

  pub update_ok :
      (old c r : Cluster) (w w' : World P.State)
      → P.row w.store old.cluster_id ≡ some old
      → update P old c w ≡ (ok r, w')
      → Puts P w.store w'.store c r
        × (r.cluster_id ≡ old.cluster_id)
        × (r.created_at ≡ old.created_at)
  unfolding update
  update_ok old c r w w' at e = elim (Result-cases (normalize P.urls c)) [
    | inl (n, normal) ↦ update_normal old c n r w w' at normal e
    | inr (x, bad) ↦ ground arith
  ]

  insert_normal :
      (c n r : Cluster) (w w' : World P.State)
      → normalize P.urls c ≡ ok n
      → insert_normalized P c w ≡ (ok r, w')
      → Puts P w.store w'.store c r
        × (r.cluster_id ≡ c.cluster_id)
        × (P.row w.store c.cluster_id ≡ none)
  unfolding insert_normalized
  insert_normal c n r w w' normal e =
      let (same, fresh, rows, links) = W.insert_cluster_done w.store n r w'.store (ground arith) in
      let keeps : n.cluster_id ≡ c.cluster_id = normalize-cluster_id P.urls c n normal in
      let content = normalize_stamped P.urls c n r.cluster_id r.created_at r.updated_at normal in
      (
        record { stored = λ j. ground (arith, rows j); links = links; content = ground arith },
        ground arith,
        ground arith,
      )

  insert_ok :
      (c r : Cluster) (w w' : World P.State)
      → insert_normalized P c w ≡ (ok r, w')
      → Puts P w.store w'.store c r
        × (r.cluster_id ≡ c.cluster_id)
        × (P.row w.store c.cluster_id ≡ none)
  unfolding insert_normalized
  insert_ok c r w w' e = elim (Result-cases (normalize P.urls c)) [
    | inl (n, normal) ↦ insert_normal c n r w w' normal e
    | inr (x, bad) ↦ ground arith
  ]

  -- What `create` inserts has the id given, or a drawn one if none was given.
  pub create_ok :
      (c r : Cluster) (w w' : World P.State)
      → create P c w ≡ (ok r, w')
      → Puts P w.store w'.store c r
        × (P.row w.store r.cluster_id ≡ none)
        × (r.cluster_id ≡ (if c.cluster_id == nil_uuid then P.new_v4 w.drawn else c.cluster_id))
  unfolding create draw_uuid
  create_ok c r w w' e = elim (ℕ_discrete c.cluster_id nil_uuid) [
    | yes blank ↦
        let (puts, id, fresh) =
          insert_ok (record c { cluster_id = P.new_v4 w.drawn }) r
            (record w { drawn = suc w.drawn }) w' (ground arith) in
        (
          record { stored = puts.stored; links = puts.links; content = puts.content },
          ground arith,
          ground arith,
        )
    | no given ↦
        let (puts, id, fresh) = insert_ok c r w w' (ground arith) in
        (puts, ground arith, ground arith)
  ]

module _ (P : Platform) (R : IsReading P.db) (W : IsWriting P.db) where
  -- If the database's reads and writes keep their laws and create_or_save returns a cluster, that
  -- row was put in and nothing else changed: at the id of the row with the cluster's url (with a
  -- trailing slash), whose creation time it keeps; or, if no row has that url, at an id that was
  -- free, which is the id given or a new one.
  pub create_or_save_ok :
      (c r : Cluster) (w w' : World P.State)
      → create_or_save P c w ≡ (ok r, w')
      → Puts P w.store w'.store c r
        × (((old : Cluster) × (P.row w.store r.cluster_id ≡ some old)
              × (old.url ≡ P.urls.add_trailing_slash c.url)
              × (r.created_at ≡ old.created_at))
            ⊎ ((P.row w.store r.cluster_id ≡ none)
                × (r.cluster_id
                    ≡ (if c.cluster_id == nil_uuid then P.new_v4 w.drawn else c.cluster_id))
                × ((i : ℕ) (d : Cluster)
                    → P.row w.store i ≡ some d
                    → d.url ≢ P.urls.add_trailing_slash c.url)))
  unfolding create_or_save
  create_or_save_ok c r w w' e = elim (handle_split (find_by_url P c.url) _ _ w (ok r, w') e) [
    | inl (old, v, found, rest) ↦
        let (at, url, same) = find_by_url_ok P R w c.url old v found in
        let (puts, id, created) = update_ok P W old c r w w' at (rw same at rest) in
        (puts, inl (old, ground arith, url, created))
    | inr (x, v, lost, rest) ↦ elim (Bool-cases (is_not_found x)) [
      | inl missing ↦
          let same : v ≡ w = find_by_url_same P R w c.url (err x) v lost in
          let (puts, fresh, id) = create_ok P W c r w w' (ground arith) in
          (
            puts,
            inr (
              fresh,
              ground arith,
              λ i d at. find_by_url_missing P R w c.url x v i d lost missing at,
            ),
          )
      | inr other ↦ ground arith
    ]
  ]

  insert_err :
      (c : Cluster) (x : Error) (w w' : World P.State)
      → insert_normalized P c w ≡ (err x, w')
      → w'.store ≡ w.store
  unfolding insert_normalized
  insert_err c x w w' e = elim (Result-cases (normalize P.urls c)) [
    | inl (n, normal) ↦ elim (Reply-cases (P.insert_cluster w.store n)) [
      | inl (r, t, same) ↦ ground arith
      | inr (f, t, same) ↦ ground (arith, W.insert_cluster_failed w.store n f t same)
    ]
    | inr (y, bad) ↦ ground arith
  ]

  update_err :
      (old c : Cluster) (x : Error) (w w' : World P.State)
      → update P old c w ≡ (err x, w')
      → w'.store ≡ w.store
  unfolding update
  update_err old c x w w' e = elim (Result-cases (normalize P.urls c)) [
    | inl (n, normal) ↦
        let full : Cluster = record n {
          cluster_id = old.cluster_id;
          created_at = old.created_at;
          updated_at = old.updated_at;
        } in
        elim (Reply-cases (P.save_cluster w.store full)) [
          | inl (r, t, same) ↦ ground arith
          | inr (f, t, same) ↦ ground (arith, W.save_cluster_failed w.store full f t same)
        ]
    | inr (y, bad) ↦ ground arith
  ]

  create_err :
      (c : Cluster) (x : Error) (w w' : World P.State)
      → create P c w ≡ (err x, w')
      → w'.store ≡ w.store
  unfolding create draw_uuid
  create_err c x w w' e = ground (
    arith,
    insert_err (record c { cluster_id = P.new_v4 w.drawn }) x (record w { drawn = suc w.drawn }) w',
    insert_err c x w w',
  )

  -- If the database's reads and writes keep their laws and create_or_save returns an error, the
  -- state of the database is unchanged.
  pub create_or_save_err :
      (c : Cluster) (x : Error) (w w' : World P.State)
      → create_or_save P c w ≡ (err x, w')
      → w'.store ≡ w.store
  unfolding create_or_save
  create_or_save_err c x w w' e = elim (handle_split (find_by_url P c.url) _ _ w (err x, w') e) [
    | inl (old, v, found, rest) ↦
        let same : v ≡ w = find_by_url_same P R w c.url (ok old) v found in
        ground (arith, update_err old c x w w')
    | inr (y, v, lost, rest) ↦
        let same : v ≡ w = find_by_url_same P R w c.url (err y) v lost in
        ground (arith, create_err c x w w')
  ]
