-- ===== src/Service/Clusters/Saving.antt =====
-- What CreateOrSaveCluster does.
use fabric8_cluster.Common.{
  ℕ, ◌≢◌, ◌⊎◌, some, none, ap, ◌≡◌, ◌∙◌, sym, inl, inr, true, false, [], ◌∷◌, arith, is_blank,
  Bool-cases,
}
use fabric8_cluster.Common.{nat_eq}
use fabric8_cluster.Errors.{Error, ok, err, Result-cases}
use fabric8_cluster.Model.{Cluster}
use fabric8_cluster.Platform.{Platform, IsLawful, tool_chain_operator}
use fabric8_cluster.Platform.Tables.{IsDurable}
use fabric8_cluster.Exec.{World}
use fabric8_cluster.Exec.Inversion.{handle_split}
use fabric8_cluster.Repository.Clusters
use fabric8_cluster.Repository.Clusters.Lookup.{find_by_url_same}
use fabric8_cluster.Repository.Clusters.Upsert.{Puts, create_or_save_ok}
use fabric8_cluster.Repository.Normalize.Laws.{normalize-token_provider_id}
use fabric8_cluster.Transaction.Atomicity.{in_transaction_err, in_transaction_kept}
use fabric8_cluster.Service.Validation.{check}
use fabric8_cluster.Service.Validation.Laws.{IsValid, check_iff}
use fabric8_cluster.Service.Clusters.{validate, complete, create_or_save_cluster}

module _ (P : Platform) (L : IsLawful P) where
  -- Completing changes at most the id and the token provider, and no table.
  complete_ok :
      (c c' : Cluster) (w v : World P.State)
      → complete P c w ≡ (ok c', v)
      → (v.store ≡ w.store)
        × (v.in_transaction ≡ w.in_transaction)
        × (c' ≡ record c { cluster_id = c'.cluster_id; token_provider_id = c'.token_provider_id })
  unfolding complete Clusters.draw_uuid
  complete_ok c c' w v e = elim (handle_split (Clusters.find_by_url P c.url) _ _ w (ok c', v) e) [
    | inl (old, u, found, rest) ↦
        let same : u ≡ w = find_by_url_same P L.reading w c.url (ok old) u found in ground arith
    | inr (x, u, lost, rest) ↦
        let same : u ≡ w = find_by_url_same P L.reading w c.url (err x) u lost in ground arith
  ]

  complete_err :
      (c : Cluster) (x : Error) (w v : World P.State)
      → complete P c w ≡ (err x, v)
      → (v.store ≡ w.store) × (v.in_transaction ≡ w.in_transaction)
  unfolding complete Clusters.draw_uuid
  complete_err c x w v e = elim (handle_split (Clusters.find_by_url P c.url) _ _ w (err x, v) e) [
    | inl (old, u, found, rest) ↦
        let same : u ≡ w = find_by_url_same P L.reading w c.url (ok old) u found in ground arith
    | inr (y, u, lost, rest) ↦
        let same : u ≡ w = find_by_url_same P L.reading w c.url (err y) u lost in ground arith
  ]

  validate_ok :
      (c c' : Cluster) (w v : World P.State)
      → validate P c w ≡ (ok c', v)
      → IsValid P.urls c
        × (v.store ≡ w.store)
        × (v.in_transaction ≡ w.in_transaction)
        × (c' ≡ record c { cluster_id = c'.cluster_id; token_provider_id = c'.token_provider_id })
  unfolding validate
  validate_ok c c' w v e = elim (Result-cases (check P.urls c)) [
    | inl (u, fine) ↦ elim (Bool-cases (is_blank c.token_provider_id)) [
      | inl blank ↦
          let (store, flag, same) = complete_ok c c' w v (ground arith) in
          ((check_iff P.urls c).0 fine, store, flag, same)
      | inr given ↦ ((check_iff P.urls c).0 fine, ground arith, ground arith, ground arith)
    ]
    | inr (x, bad) ↦ ground arith
  ]

  validate_err :
      (c : Cluster) (x : Error) (w v : World P.State)
      → validate P c w ≡ (err x, v)
      → (v.store ≡ w.store) × (v.in_transaction ≡ w.in_transaction)
  unfolding validate
  validate_err c x w v e = ground (arith, complete_err c x w v)

module _ (P : Platform) where
  -- `Puts`, read at equal states and at an equal struct.
  Puts-as :
      (s t : P.State) (c c' r : Cluster) (s' t' : P.State)
      → Puts P s' t' c' r
      → s ≡ s'
      → t ≡ t'
      → c' ≡ record c { cluster_id = c'.cluster_id; token_provider_id = c'.token_provider_id }
      → Puts P s t (record c { token_provider_id = r.token_provider_id }) r
  Puts-as s t c c' r s' t' puts e f same = record {
    stored = λ j. ground (arith, puts.stored j);
    links = λ x j. ground (arith, puts.links x j);
    content = ground (arith, puts.content, normalize-token_provider_id P.urls _ r puts.content);
  }

  -- The row at the url of `c` had the id of `r` already; or there was none, and the id was free.
  abbrev pub Origin : P.State → Cluster → Cluster → Type 0
  Origin s c r =
      ((old : Cluster) × (P.row s r.cluster_id ≡ some old)
        × (old.url ≡ P.urls.add_trailing_slash c.url)
        × (r.created_at ≡ old.created_at))
      ⊎ ((P.row s r.cluster_id ≡ none)
          × ((i : ℕ) (d : Cluster) → P.row s i ≡ some d → d.url ≢ P.urls.add_trailing_slash c.url))

  -- `Origin`, read at an equal state and at a struct with the same url.
  Origin-as :
      (s s' : P.State) (c c' r : Cluster) (id : ℕ)
      → s ≡ s'
      → c'.url ≡ c.url
      → ((old : Cluster) × (P.row s' r.cluster_id ≡ some old)
          × (old.url ≡ P.urls.add_trailing_slash c'.url)
          × (r.created_at ≡ old.created_at))
        ⊎ ((P.row s' r.cluster_id ≡ none)
            × (r.cluster_id ≡ id)
            × ((i : ℕ) (d : Cluster)
                → P.row s' i ≡ some d
                → d.url ≢ P.urls.add_trailing_slash c'.url))
      → Origin s c r
  Origin-as s s' c c' r id e url (inl (old, at, same, created)) =
      inl (old, ground (arith, at, e), ground (arith, same, url), created)
  Origin-as s s' c c' r id e url (inr (free, given, new)) = inr (
    ground (arith, free, e),
    λ i d at same. new i d (ground (arith, at, e)) (ground (arith, same, url)),
  )

module _ (P : Platform) (L : IsLawful P) (ctx : P.Context) (c : Cluster) (w w' : World P.State)
    (outside : w.in_transaction ≡ false) where
  -- What `create_or_save_cluster_ok` states, and where the id of the row comes from.
  pub create_or_save_cluster_put :
      (r : Cluster)
      → IsDurable P.db
      → create_or_save_cluster P ctx c w ≡ (ok r, w')
      → (P.is_specific_service_account ctx (tool_chain_operator ∷ []) ≡ true)
        × IsValid P.urls c
        × Puts P w.store w'.store (record c { token_provider_id = r.token_provider_id }) r
        × Origin P w.store c r
  unfolding create_or_save_cluster
  create_or_save_cluster_put r D e =
      elim (Bool-cases (P.is_specific_service_account ctx (tool_chain_operator ∷ []))) [
        | inr refused ↦ ground arith
        | inl allowed ↦
            elim (handle_split (validate P c) _ _ w (ok r, w')
              (rw (allowed, create_or_save_cluster) at e)) [
                | inr (x, v, bad, rest) ↦ ground arith
                | inl (c', v, checked, rest) ↦
                    let (valid, store, flag, same) = validate_ok P L c c' w v checked in
                    let (u, ran, kept, _) =
                      in_transaction_kept P L D (Clusters.create_or_save P c') v w' r
                        (flag ∙ outside) rest in
                    let (puts, origin) =
                      create_or_save_ok P L.reading L.writing c' r
                        (record v { in_transaction = true }) u ran in
                    (
                      allowed,
                      valid,
                      Puts-as P w.store w'.store c c' r v.store u.store puts (sym store) kept same,
                      Origin-as P w.store v.store c c' r _ (sym store) (ap (λ z. z.url) same)
                          origin,
                    )
              ]
      ]

  -- On a lawful platform where commits succeed, and outside a transaction: if
  -- create_or_save_cluster returns a cluster, the caller is the tool chain operator, the cluster
  -- sent is valid, and the returned row was put into the table, with the content that Normalize
  -- makes of the cluster sent (its token provider as returned), and nothing else changed.
  pub create_or_save_cluster_ok :
      (r : Cluster)
      → IsDurable P.db
      → create_or_save_cluster P ctx c w ≡ (ok r, w')
      → (P.is_specific_service_account ctx (tool_chain_operator ∷ []) ≡ true)
        × IsValid P.urls c
        × Puts P w.store w'.store (record c { token_provider_id = r.token_provider_id }) r
  create_or_save_cluster_ok r D e =
      let (allowed, valid, puts, origin) = create_or_save_cluster_put r D e in
      (allowed, valid, puts)

  -- On a lawful platform and outside a transaction: if create_or_save_cluster returns an error, the
  -- state of the database is unchanged.
  pub create_or_save_cluster_err :
      (x : Error) → create_or_save_cluster P ctx c w ≡ (err x, w') → w'.store ≡ w.store
  unfolding create_or_save_cluster
  create_or_save_cluster_err x e =
      elim (Bool-cases (P.is_specific_service_account ctx (tool_chain_operator ∷ []))) [
        | inr refused ↦ ground arith
        | inl allowed ↦
            elim (handle_split (validate P c) _ _ w (err x, w')
              (rw (allowed, create_or_save_cluster) at e)) [
                | inr (y, v, bad, rest) ↦ ground (arith, validate_err P L c y w v bad)
                | inl (c', v, checked, rest) ↦
                    let (valid, store, flag, same) = validate_ok P L c c' w v checked in
                    (in_transaction_err P L (Clusters.create_or_save P c') v w' x (flag ∙ outside)
                      rest).0
                    ∙ store
              ]
      ]
