-- ===== src/Tests/Reflected.antt =====
-- Reflection on the struct Cluster, for two clusters.
use fabric8_cluster.Common.{[], ◌∷◌, ◌≡◌, map}
use fabric8_cluster.Errors.{ok}
use fabric8_cluster.Configuration.Decoding.{all_with_defaults}
use fabric8_cluster.Configuration.Files.{missing_keys}
use fabric8_cluster.Configuration.Reflection.{
  cluster_fields, get_default_values, apply_defaults, field_complaints, missing_key,
}
use fabric8_cluster.Configuration.Reflection.Laws.{
  encrypted_default, type_default, IsOrder, all_with_defaults-reflected, missing_keys-reflected,
}
use fabric8_cluster.Tests.Data.{east, west_row}

-- The type was assigned at index 0, and `range` meets the type first.
all_with_defaults-reflected_example :
    (get_default_values cluster_fields ≡ ok (encrypted_default ∷ type_default ∷ []))
    × (IsOrder (type_default ∷ encrypted_default ∷ [])
        → apply_defaults
            ((0, "type") ∷ [])
            (type_default ∷ encrypted_default ∷ [])
            (east ∷ west_row ∷ [])
          ≡ all_with_defaults ((0, "type") ∷ []) 0 (east ∷ west_row ∷ []))
all_with_defaults-reflected_example =
    all_with_defaults-reflected ((0, "type") ∷ []) (type_default ∷ encrypted_default ∷ [])
      (east ∷ west_row ∷ [])

missing_keys-reflected_example :
    field_complaints cluster_fields (record east { sa_token = "" })
    ≡ map missing_key (missing_keys (record east { sa_token = "" }))
missing_keys-reflected_example = missing_keys-reflected (record east { sa_token = "" })
