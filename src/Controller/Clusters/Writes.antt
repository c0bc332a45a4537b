-- ===== src/Controller/Clusters/Writes.antt =====
-- The handlers that change the tables: what an answer says of them.
use fabric8_cluster.Common.{
  ℕ, String, Bool, true, false, Option, [], ◌∷◌, ◌≡◌, ◌∙◌, ◌⊎◌, inl, inr, ap, refl, arith,
  Bool-cases,
}
use fabric8_cluster.Errors.{Error, Result, ok, err}
use fabric8_cluster.Model.{Cluster}
use fabric8_cluster.Platform.{Platform, IsLawful, tool_chain_operator}
use fabric8_cluster.Platform.Tables.{IsDurable}
use fabric8_cluster.Exec.{World}
use fabric8_cluster.Repository.Clusters.Upsert.{Puts}
use fabric8_cluster.Service.Clusters
use fabric8_cluster.Service.Clusters.Saving.{create_or_save_cluster_ok, create_or_save_cluster_err}
use fabric8_cluster.Service.Links
use fabric8_cluster.Service.Links.Linking.{
  link_identity_to_cluster_err, remove_identity_to_cluster_link_err,
}
use fabric8_cluster.Service.Validation.Laws.{IsValid}
use fabric8_cluster.Controller.Data.{
  created, error_response, CreateClusterData, payload_cluster, given_or,
}
use fabric8_cluster.Controller.Clusters.{
  create, link_identity_to_cluster, remove_identity_to_cluster_link,
}

abbrev outcome :
    {A S : Type 0} (q : Result A × S)
    → ((a : A) × (v : S) × (q ≡ (ok a, v))) ⊎ ((e : Error) × (v : S) × (q ≡ (err e, v)))
outcome (ok a, v) = inl (a, v, refl)
outcome (err e, v) = inr (e, v, refl)

module _ (P : Platform) (L : IsLawful P) (ctx : P.Context) (w w' : World P.State)
    (outside : w.in_transaction ≡ false) where
  -- On a lawful platform where commits succeed, and outside a transaction: if the handler create
  -- answers with a location, the location names the uuid of a row that was put into the table for
  -- the cluster of the payload, the caller is the tool chain operator, that cluster is valid, and
  -- nothing else changed.
  pub create-created :
      IsDurable P.db
      → (href : String → String) (p : CreateClusterData) (location : String)
      → create P href ctx p w ≡ (created location, w')
      → (r : Cluster) × (location ≡ href (P.uuid_string r.cluster_id))
        × (P.is_specific_service_account ctx (tool_chain_operator ∷ []) ≡ true)
        × IsValid P.urls (payload_cluster p)
        × Puts P w.store w'.store
            (record (payload_cluster p) { token_provider_id = r.token_provider_id })
            r
  unfolding create
  create-created D href p location e =
      elim (outcome (Clusters.create_or_save_cluster P ctx (payload_cluster p) w)) [
        | inl (r, v, q) ↦
            let same : v ≡ w' = ground arith in
            let (operator, valid, puts) =
              create_or_save_cluster_ok P L ctx (payload_cluster p) w w' outside r D
                (q ∙ ap (λ z. (ok r, z)) same) in
            (r, ground arith, operator, valid, puts)
        | inr (x, v, q) ↦ absurd (ground arith)
      ]

  -- On a lawful platform and outside a transaction: if the handler create answers with an error,
  -- the state of the database is unchanged.
  pub create_error :
      (href : String → String) (p : CreateClusterData) (x : Error)
      → create P href ctx p w ≡ (error_response x, w')
      → w'.store ≡ w.store
  unfolding create
  create_error href p x e =
      elim (outcome (Clusters.create_or_save_cluster P ctx (payload_cluster p) w)) [
        | inl (r, v, q) ↦ absurd (ground arith)
        | inr (y, v, q) ↦
            let same : v ≡ w' = ground arith in
            create_or_save_cluster_err P L ctx (payload_cluster p) w w' outside y
              (q ∙ ap (λ z. (err y, z)) same)
      ]

  -- On a lawful platform and outside a transaction: if the handler link_identity_to_cluster answers
  -- with an error, be it for a malformed identity or by the service, the state of the database is
  -- unchanged.
  pub link_error :
      (parse_uuid : String → ℕ × Bool) (identity_id url : String) (ignore : Option Bool) (x : Error)
      → link_identity_to_cluster P parse_uuid ctx identity_id url ignore w ≡ (error_response x, w')
      → w'.store ≡ w.store
  unfolding link_identity_to_cluster
  link_error parse_uuid identity_id url ignore x e =
      elim (outcome (
        Links.link_identity_to_cluster P ctx (parse_uuid identity_id).0 url (given_or true ignore)
          w)) [
            | inl (r, v, q) ↦ ground (arith, Bool-cases (parse_uuid identity_id).1)
            | inr (y, v, q) ↦
                let kept : v.store ≡ w.store =
                  link_identity_to_cluster_err P L ctx (parse_uuid identity_id).0 url w v outside
                    (given_or true ignore) y q in
                ground (arith, kept, Bool-cases (parse_uuid identity_id).1)
          ]

  -- On a lawful platform and outside a transaction: if the handler remove_identity_to_cluster_link
  -- answers with an error, be it for a malformed identity or by the service, the state of the
  -- database is unchanged.
  pub remove_error :
      (parse_uuid : String → ℕ × Bool) (identity_id url : String) (x : Error)
      → remove_identity_to_cluster_link P parse_uuid ctx identity_id url w ≡ (error_response x, w')
      → w'.store ≡ w.store
  unfolding remove_identity_to_cluster_link
  remove_error parse_uuid identity_id url x e =
      elim (outcome
        (Links.remove_identity_to_cluster_link P ctx (parse_uuid identity_id).0 url w)) [
          | inl (r, v, q) ↦ ground (arith, Bool-cases (parse_uuid identity_id).1)
          | inr (y, v, q) ↦
              let kept : v.store ≡ w.store =
                remove_identity_to_cluster_link_err P L ctx (parse_uuid identity_id).0 url w v
                  outside y q in
              ground (arith, kept, Bool-cases (parse_uuid identity_id).1)
        ]
