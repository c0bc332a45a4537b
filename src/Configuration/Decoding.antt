-- ===== src/Configuration/Decoding.antt =====
-- decodeClusters of configuration/decode_clusters.go. The result of mapstructure's decoder is a
-- parameter: the clusters and the keys of its metadata, or an error. The default values stand in
-- the tags of the struct Cluster, see Configuration/Reflection.
use fabric8_cluster.Common.{
  ℕ, zero, suc, String, Bool, true, false, ◌&&◌, ◌||◌, ◌≡◌, ap, ◌∙◌, ◌+◌, Option, none, some, List,
  [], ◌∷◌, if◌then◌else◌, ◌==◌, nat_eq, string_eq, arith,
}
use fabric8_cluster.Errors.{wrapped, Result, ok, err}
use fabric8_cluster.Model.{Cluster, oso}
use fabric8_cluster.Configuration.Keys.{get_assigned_fields}

-- Whether the map of the assigned fields has a key.
abbrev pub is_assigned : List (ℕ × String) → ℕ → String → Bool
is_assigned [] i field = false
is_assigned ((j, f) ∷ fs) i field = (i == j && field == f) || is_assigned fs i field

-- The body of the two loops over default values and clusters, for the cluster at index `i`.
unfoldable pub with_defaults : List (ℕ × String) → ℕ → Cluster → Cluster
with_defaults assigned i c = record c {
  sa_token_encrypted =
      if is_assigned assigned i "service-account-token-encrypted"
      then c.sa_token_encrypted
      else true;
  cluster_type = if is_assigned assigned i "type" then c.cluster_type else oso;
}

unfoldable pub all_with_defaults : List (ℕ × String) → ℕ → List Cluster → List Cluster
all_with_defaults assigned i [] = []
all_with_defaults assigned i (c ∷ cs) =
    with_defaults assigned i c ∷ all_with_defaults assigned (suc i) cs

abbrev assigned_or : Result (List (ℕ × String)) → List Cluster → Result (List Cluster)
assigned_or (err e) cs = err (wrapped e "unable to assign default values on config clusters")
assigned_or (ok assigned) cs = ok (all_with_defaults assigned 0 cs)

unfoldable pub decode_clusters : Result (List Cluster × List String) → Result (List Cluster)
decode_clusters (err e) = err (wrapped e "unable to decode clusters from config")
decode_clusters (ok (cs, keys)) = assigned_or (get_assigned_fields keys) cs

abbrev pub nth : {A : Type 0} → List A → ℕ → Option A
nth [] i = none
nth (c ∷ cs) zero = some c
nth (c ∷ cs) (suc i) = nth cs i

nth_defaults :
    (assigned : List (ℕ × String)) (k i : ℕ) (cs : List Cluster) (c : Cluster)
    → nth cs i ≡ some c
    → nth (all_with_defaults assigned k cs) i ≡ some (with_defaults assigned (i + k) c)
unfolding all_with_defaults
nth_defaults assigned k i [] c e = absurd (cc)
nth_defaults assigned k zero (d ∷ cs) c e = ground (arith, e)
nth_defaults assigned k (suc i) (d ∷ cs) c e =
    nth_defaults assigned (suc k) i cs c e
    ∙ ap (λ n. some (with_defaults assigned n c)) (omega arith)

-- If the keys of the decoder's metadata can be read and decode_clusters returns a list, then its
-- i-th cluster is the i-th one decoded, with its type and its flag for an encrypted token kept if
-- they were assigned at index i and set to OSO and true if not.
pub decode_clusters-nth :
    (cs out : List Cluster) (keys : List String) (assigned : List (ℕ × String)) (i : ℕ)
    (c : Cluster)
    → get_assigned_fields keys ≡ ok assigned
    → decode_clusters (ok (cs, keys)) ≡ ok out
    → nth cs i ≡ some c
    → nth out i
      ≡ some (record c {
        sa_token_encrypted =
            if is_assigned assigned i "service-account-token-encrypted"
            then c.sa_token_encrypted
            else true;
        cluster_type = if is_assigned assigned i "type" then c.cluster_type else oso;
      })
unfolding decode_clusters with_defaults
decode_clusters-nth cs out keys assigned i c known e at =
    let same : all_with_defaults assigned 0 cs ≡ out = ground (arith, known, e) in
    rw (← same) (
      nth_defaults assigned 0 i cs c at ∙ ap (λ n. some (with_defaults assigned n c)) (omega arith))
