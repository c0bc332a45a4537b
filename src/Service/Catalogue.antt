-- ===== src/Service/Catalogue.antt =====
-- What the methods of clusterService promise on the clusters, without tables, transactions or
-- network: a catalogue of clusters by url, and what each method may answer on it.
pub mod Rows
pub mod Matching
pub mod Linking
pub mod Refinement
pub mod Stability
use fabric8_cluster.Common.{
  ℕ, Bool, String, Option, none, some, List, [], ◌∷◌, true, false, if◌then◌else◌, ◌==◌, ◌&&◌,
  string_eq, nat_eq, ◌≡◌, ◌≢◌,
}
use fabric8_cluster.Errors.{Error, Result, ok, err, is_not_found}
use fabric8_cluster.Model.{Cluster}
use fabric8_cluster.Platform.{Platform, auth, tool_chain_operator}
use fabric8_cluster.Exec.{World}
use fabric8_cluster.Repository.Normalize.{normalize}
use fabric8_cluster.Service.Clusters
use fabric8_cluster.Service.Links
use fabric8_cluster.Service.Validation.Laws.{IsValid}

-- The cluster at each url, and which identity is linked to which cluster.
pub record Catalogue : Type 0 where
  pub clusters : String → Option Cluster
  pub linked : (identity_id cluster_id : ℕ) → Bool

unfoldable pub put : Cluster → Catalogue → Catalogue
put c k = record k { clusters = λ u. if u == c.url then some c else k.clusters u }

-- The links to a cluster go with it.
unfoldable pub remove : Cluster → Catalogue → Catalogue
remove c k = record {
  clusters = λ u. if u == c.url then none else k.clusters u;
  linked = λ y j. if j == c.cluster_id then false else k.linked y j;
}

unfoldable pub set_link : (identity_id cluster_id : ℕ) → Bool → Catalogue → Catalogue
set_link x i b k = record k { linked = λ y j. if y == x && j == i then b else k.linked y j }

-- A call of `CreateOrSaveCluster`, `Delete`, `FindByURLForAuth`, `LinkIdentityToCluster` or
-- `RemoveIdentityToClusterLink`, and its result.
pub data Call (P : Platform) : Type 0 where
  save : P.Context → Cluster → Call P
  drop : P.Context → ℕ → Call P
  look_up : P.Context → String → Call P
  link : P.Context → (identity_id : ℕ) → String → (ignore_if_exists : Bool) → Call P
  unlink : P.Context → (identity_id : ℕ) → String → Call P

pub data Answer : Type 0 where
  of_save : Result Cluster → Answer
  of_drop : Result Unit → Answer
  of_look_up : Result Cluster → Answer
  of_link : Result Unit → Answer
  of_unlink : Result Unit → Answer

module _ (P : Platform) where
  unfoldable pub perform : Call P → World P.State → Answer × World P.State
  perform (save ctx c) w = let r = Clusters.create_or_save_cluster P ctx c w in (of_save r.0, r.1)
  perform (drop ctx id) w = let r = Clusters.delete P ctx id w in (of_drop r.0, r.1)
  perform (look_up ctx url) w =
      let r = Clusters.find_by_url_for_auth P ctx url w in (of_look_up r.0, r.1)
  perform (link ctx x url ignore) w =
      let r = Links.link_identity_to_cluster P ctx x url ignore w in (of_link r.0, r.1)
  perform (unlink ctx x url) w =
      let r = Links.remove_identity_to_cluster_link P ctx x url w in (of_unlink r.0, r.1)

  -- The calls with their answers, one call after the other.
  unfoldable pub trace : List (Call P) → World P.State → List (Call P × Answer)
  trace [] w = []
  trace (q ∷ qs) w = (q, (perform q w).0) ∷ trace qs (perform q w).1

  -- A saved cluster keeps the id and the creation time of the one at its url; a new one gets an id
  -- that no other cluster has.
  pub data Identified (k : Catalogue) (r : Cluster) : Type 0 where
    known :
        (old : Cluster)
        → k.clusters r.url ≡ some old
        → r.cluster_id ≡ old.cluster_id
        → r.created_at ≡ old.created_at
        → Identified k r
    fresh :
        k.clusters r.url ≡ none
        → ((u : String) (d : Cluster) → k.clusters u ≡ some d → d.cluster_id ≢ r.cluster_id)
        → Identified k r

  -- What a call may answer, and the catalogue afterwards.
  pub data Allows (k : Catalogue) : Call P → Answer → Catalogue → Type 0 where
    saved :
        (ctx : P.Context) (c r : Cluster)
        → P.is_specific_service_account ctx (tool_chain_operator ∷ []) ≡ true
        → IsValid P.urls c
        → normalize P.urls (record c {
          cluster_id = r.cluster_id;
          created_at = r.created_at;
          updated_at = r.updated_at;
          token_provider_id = r.token_provider_id;
        })
          ≡ ok r
        → Identified k r
        → Allows k (save ctx c) (of_save (ok r)) (put r k)
    not_saved :
        (ctx : P.Context) (c : Cluster) (e : Error) → Allows k (save ctx c) (of_save (err e)) k
    dropped :
        (ctx : P.Context) (d : Cluster)
        → P.is_specific_service_account ctx (tool_chain_operator ∷ []) ≡ true
        → k.clusters d.url ≡ some d
        → Allows k (drop ctx d.cluster_id) (of_drop (ok tt)) (remove d k)
    not_dropped :
        (ctx : P.Context) (id : ℕ) (e : Error)
        → (is_not_found e ≡ true
            → (u : String) (d : Cluster) → k.clusters u ≡ some d
            → d.cluster_id ≢ id)
        → Allows k (drop ctx id) (of_drop (err e)) k
    looked_up :
        (ctx : P.Context) (url : String) (c : Cluster)
        → P.is_specific_service_account ctx (auth ∷ []) ≡ true
        → k.clusters (P.urls.add_trailing_slash url) ≡ some c
        → Allows k (look_up ctx url) (of_look_up (ok c)) k
    not_looked_up :
        (ctx : P.Context) (url : String) (e : Error)
        → (is_not_found e ≡ true → k.clusters (P.urls.add_trailing_slash url) ≡ none)
        → Allows k (look_up ctx url) (of_look_up (err e)) k
    joined :
        (ctx : P.Context) (x : ℕ) (url : String) (ignore : Bool) (c : Cluster)
        → P.is_specific_service_account ctx (auth ∷ []) ≡ true
        → k.clusters (P.urls.add_trailing_slash url) ≡ some c
        → (ignore ≡ false → k.linked x c.cluster_id ≡ false)
        → Allows k (link ctx x url ignore) (of_link (ok tt)) (set_link x c.cluster_id true k)
    not_joined :
        (ctx : P.Context) (x : ℕ) (url : String) (ignore : Bool) (e : Error)
        → Allows k (link ctx x url ignore) (of_link (err e)) k
    parted :
        (ctx : P.Context) (x : ℕ) (url : String) (c : Cluster)
        → P.is_specific_service_account ctx (auth ∷ []) ≡ true
        → k.clusters url ≡ some c
        → k.linked x c.cluster_id ≡ true
        → Allows k (unlink ctx x url) (of_unlink (ok tt)) (set_link x c.cluster_id false k)
    not_parted :
        (ctx : P.Context) (x : ℕ) (url : String) (e : Error)
        → Allows k (unlink ctx x url) (of_unlink (err e)) k

  -- A whole exchange that the catalogue allows.
  pub data Allowed : Catalogue → List (Call P × Answer) → Type 0 where
    ended : (k : Catalogue) → Allowed k []
    then_on :
        (q : Call P) (a : Answer) (k k' : Catalogue) (rest : List (Call P × Answer))
        → Allows k q a k'
        → Allowed k' rest
        → Allowed k ((q, a) ∷ rest)
