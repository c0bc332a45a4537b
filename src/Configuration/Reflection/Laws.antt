-- ===== src/Configuration/Reflection/Laws.antt =====
-- The fields that the model of configuration/ names are those that reflection finds.
use fabric8_cluster.Common.{
  ℕ, suc, String, Bool, true, false, List, [], ◌∷◌, ◌≡◌, refl, ap, ◌∙◌, map, if◌then◌else◌, ◌==◌,
  string_eq, nat_eq, inl, inr, ◌⊎◌,
}
use fabric8_cluster.Errors.{ok}
use fabric8_cluster.Model.{Cluster, oso}
use fabric8_cluster.Configuration.Decoding.{is_assigned, with_defaults, all_with_defaults}
use fabric8_cluster.Configuration.Files.{missing_keys}
use fabric8_cluster.Configuration.Reflection.{
  cluster_fields, DefaultValue, string_value, bool_value, get_default_values, parse_bool, set_field,
  apply_default, apply_defaults, string_field, Complaint, missing_key, field_complaints,
}

abbrev pub encrypted_default : DefaultValue
encrypted_default = ("service-account-token-encrypted", "SATokenEncrypted", bool_value true)

abbrev pub type_default : DefaultValue
type_default = ("type", "Type", string_value "OSO")

-- Setting one field or both, whichever comes first.
both : (typed encrypted : Bool) (c : Cluster) → Cluster
both typed encrypted c = record c {
  sa_token_encrypted = if encrypted then c.sa_token_encrypted else true;
  cluster_type = if typed then c.cluster_type else oso;
}

encrypted_first :
    (typed encrypted : Bool) (c : Cluster)
    → (let d = if encrypted then c else record c { sa_token_encrypted = true } in
        if typed then d else record d { cluster_type = oso })
      ≡ both typed encrypted c
unfolding both
encrypted_first true true c = refl
encrypted_first true false c = refl
encrypted_first false true c = refl
encrypted_first false false c = refl

type_first :
    (typed encrypted : Bool) (c : Cluster)
    → (let d = if typed then c else record c { cluster_type = oso } in
        if encrypted then d else record d { sa_token_encrypted = true })
      ≡ both typed encrypted c
unfolding both
type_first true true c = refl
type_first true false c = refl
type_first false true c = refl
type_first false false c = refl

-- The entries in either order.
abbrev pub IsOrder : List DefaultValue → Type 0
IsOrder ds =
    (ds ≡ encrypted_default ∷ type_default ∷ []) ⊎ (ds ≡ type_default ∷ encrypted_default ∷ [])

module _ (assigned : List (ℕ × String)) where
  encrypted_loops :
      (i : ℕ) (cs : List Cluster)
      → apply_default assigned type_default i (apply_default assigned encrypted_default i cs)
        ≡ all_with_defaults assigned i cs
  unfolding apply_default all_with_defaults with_defaults set_field string_eq both
  encrypted_loops i [] = refl
  encrypted_loops i (c ∷ cs) =
      ap
        (λ d.
          d
          ∷ apply_default assigned type_default (suc i)
              (apply_default assigned encrypted_default (suc i) cs))
        (encrypted_first (is_assigned assigned i "type")
          (is_assigned assigned i "service-account-token-encrypted") c)
      ∙ ap
          (λ ds.
            both (is_assigned assigned i "type")
              (is_assigned assigned i "service-account-token-encrypted") c
            ∷ ds)
          (encrypted_loops (suc i) cs)

  type_loops :
      (i : ℕ) (cs : List Cluster)
      → apply_default assigned encrypted_default i (apply_default assigned type_default i cs)
        ≡ all_with_defaults assigned i cs
  unfolding apply_default all_with_defaults with_defaults set_field string_eq both
  type_loops i [] = refl
  type_loops i (c ∷ cs) =
      ap
        (λ d.
          d
          ∷ apply_default assigned encrypted_default (suc i)
              (apply_default assigned type_default (suc i) cs))
        (type_first (is_assigned assigned i "type")
          (is_assigned assigned i "service-account-token-encrypted") c)
      ∙ ap
          (λ ds.
            both (is_assigned assigned i "type")
              (is_assigned assigned i "service-account-token-encrypted") c
            ∷ ds)
          (type_loops (suc i) cs)

  found : get_default_values cluster_fields ≡ ok (encrypted_default ∷ type_default ∷ [])
  unfolding get_default_values parse_bool string_eq
  found = refl

  -- getDefaultValues finds the type and the flag for an encrypted token, from the tags of the
  -- struct Cluster; and for all clusters and assigned fields, the loops over these default values,
  -- in either order, do what all_with_defaults does.
  pub all_with_defaults-reflected :
      (ds : List DefaultValue) (cs : List Cluster)
      → (get_default_values cluster_fields ≡ ok (encrypted_default ∷ type_default ∷ []))
        × (IsOrder ds → apply_defaults assigned ds cs ≡ all_with_defaults assigned 0 cs)
  unfolding apply_defaults
  all_with_defaults-reflected ds cs = (
    found,
    λ o. elim o [
      | inl same ↦ ap (λ es. apply_defaults assigned es cs) same ∙ encrypted_loops 0 cs
      | inr same ↦ ap (λ es. apply_defaults assigned es cs) same ∙ type_loops 0 cs
    ],
  )

keyed :
    (b : Bool) (k : String) (seen : List Complaint) (rest : List String)
    → seen ≡ map missing_key rest
    → (if b then missing_key k ∷ seen else seen) ≡ map missing_key (if b then k ∷ rest else rest)
keyed true k seen rest same = ap (λ r. missing_key k ∷ r) same
keyed false k seen rest same = same

-- For every cluster, the loop over the fields of the struct and their tags complains of exactly the
-- missing keys, in order, and of no wrong type.
pub missing_keys-reflected :
    (c : Cluster) → field_complaints cluster_fields c ≡ map missing_key (missing_keys c)
unfolding field_complaints missing_keys string_field string_eq
missing_keys-reflected c = keyed (c.name == "") "name" _ _ (
    keyed (c.url == "") "api-url" _ _ (
      keyed (c.app_dns == "") "app-dns" _ _ (
        keyed (c.sa_token == "") "service-account-token" _ _ (
          keyed (c.sa_username == "") "service-account-username" _ _ (
            keyed (c.token_provider_id == "") "token-provider-id" _ _ (
              keyed (c.auth_client_id == "") "auth-client-id" _ _ (
                keyed (c.auth_client_secret == "") "auth-client-secret" _ _
                  (keyed (c.auth_default_scope == "") "auth-client-default-scope" _ _ refl))))))))
