-- ===== src/System.antt =====
-- The running service of main.go: requests that the mounted controllers of controller/ handle, and
-- events of the configuration's watcher, one after the other. Each is handled to its end before
-- the next.
pub mod Safety
use fabric8_cluster.Common.{ℕ, String, Bool, Option, List}
use fabric8_cluster.Errors.{Result}
use fabric8_cluster.Model.{Cluster}
use fabric8_cluster.Platform.{Platform}
use fabric8_cluster.Exec.{World}
use fabric8_cluster.Configuration.Files.{Files}
use fabric8_cluster.Controller.Clusters
use fabric8_cluster.Controller.Users
use fabric8_cluster.Controller.Data.{CreateClusterData}
use fabric8_cluster.Service.Watcher.{Shared, Event, handle_event}

-- What the router knows of a request: the action, its parameters and its context.
pub data Request (P : Platform) : Type 0 where
  list : P.Context → (cluster_url cluster_type : Option String) → Request P
  list_for_auth_client : P.Context → (cluster_url cluster_type : Option String) → Request P
  show : P.Context → (cluster_id : ℕ) → Request P
  show_for_auth_client : P.Context → (cluster_id : ℕ) → Request P
  create : P.Context → CreateClusterData → Request P
  delete : P.Context → (cluster_id : ℕ) → Request P
  link_identity_to_cluster :
      P.Context → (identity_id cluster_url : String) → (ignore_if_exists : Option Bool) → Request P
  remove_identity_to_cluster_link : P.Context → (identity_id cluster_url : String) → Request P
  clusters : (located : Result ℕ) → Request P

module _ (P : Platform) (href : String → String) (parse_uuid : String → ℕ × Bool) where
  -- What a request leaves behind; its response goes to the client.
  unfoldable pub serve : Request P → World P.State → World P.State
  serve (list ctx url type) w = (Clusters.list P ctx url type w).1
  serve (list_for_auth_client ctx url type) w = (Clusters.list_for_auth_client P ctx url type w).1
  serve (show ctx id) w = (Clusters.show P ctx id w).1
  serve (show_for_auth_client ctx id) w = (Clusters.show_for_auth_client P ctx id w).1
  serve (create ctx p) w = (Clusters.create P href ctx p w).1
  serve (delete ctx id) w = (Clusters.delete P ctx id w).1
  serve (link_identity_to_cluster ctx x url ignore) w =
      (Clusters.link_identity_to_cluster P parse_uuid ctx x url ignore w).1
  serve (remove_identity_to_cluster_link ctx x url) w =
      (Clusters.remove_identity_to_cluster_link P parse_uuid ctx x url w).1
  serve (clusters located) w = (Users.clusters P located w).1

  -- One step of the service. Each event finds the files and the order of `range` anew.
  pub data Step : Shared P → Shared P → Type 0 where
    served : (q : Request P) (s : Shared P) → Step s (record s { world = serve q s.world })
    notified :
        (F : Files) (order : List Cluster → List Cluster) (e : Event) (s : Shared P)
        → Step s (handle_event P F order e s)

  pub data Reach (s : Shared P) : Shared P → Type 0 where
    here : Reach s s
    next : {t u : Shared P} → Reach s t → Step t u → Reach s u
