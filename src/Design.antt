-- ===== src/Design.antt =====
-- The actions of the API, as design/api.go, design/clusters.go, design/user.go and design/status.go
-- describe them: verb, path, security and declared responses. The code that goa generates from the
-- description is not in the repository.
pub mod Responses
pub mod Answers
pub mod Faults
use fabric8_cluster.Common.{
  String, Bool, true, false, ◌&&◌, ◌++◌, List, [], ◌∷◌, ◌==◌, string_eq, nat_eq, ℕ,
}

pub data Verb : Type 0 where
  get post delete : Verb

-- A part of a path: a word, or a parameter by its name, as `:clusterID`.
pub data Segment : Type 0 where
  word : String → Segment
  parameter : String → Segment

-- The responses by their status: 200, 201, 204, 400, 401, 404, 500 and 503.
pub data Status : Type 0 where
  ok_status created_status no_content_status : Status
  bad_request unauthorized_status not_found_status : Status
  internal_server_error unavailable : Status

-- `secured`: the action wants the JWT.
pub record Action : Type 0 where
  pub verb : Verb
  pub path : List Segment
  pub secured : Bool
  pub responses : List Status

-- `BasePath` of the API and of the resource.
abbrev pub under : String → List Segment → List Segment
under resource path = word "api" ∷ word resource ∷ path

abbrev pub list_action : Action
list_action = record {
  verb = get;
  path = under "clusters" [];
  secured = true;
  responses = ok_status ∷ bad_request ∷ unauthorized_status ∷ internal_server_error ∷ [];
}

abbrev pub list_for_auth_client_action : Action
list_for_auth_client_action = record {
  verb = get;
  path = under "clusters" (word "auth" ∷ []);
  secured = true;
  responses = ok_status ∷ bad_request ∷ unauthorized_status ∷ internal_server_error ∷ [];
}

abbrev pub show_action : Action
show_action = record {
  verb = get;
  path = under "clusters" (parameter "clusterID" ∷ []);
  secured = true;
  responses = ok_status ∷ unauthorized_status ∷ not_found_status ∷ internal_server_error ∷ [];
}

abbrev pub show_for_auth_client_action : Action
show_for_auth_client_action = record {
  verb = get;
  path = under "clusters" (parameter "clusterID" ∷ word "auth" ∷ []);
  secured = true;
  responses = ok_status ∷ unauthorized_status ∷ not_found_status ∷ internal_server_error ∷ [];
}

abbrev pub create_action : Action
create_action = record {
  verb = post;
  path = under "clusters" [];
  secured = true;
  responses = created_status ∷ bad_request ∷ unauthorized_status ∷ internal_server_error ∷ [];
}

abbrev pub delete_action : Action
delete_action = record {
  verb = delete;
  path = under "clusters" (parameter "clusterID" ∷ []);
  secured = true;
  responses =
      no_content_status ∷ unauthorized_status ∷ not_found_status ∷ internal_server_error ∷ [];
}

abbrev pub link_identity_to_cluster_action : Action
link_identity_to_cluster_action = record {
  verb = post;
  path = under "clusters" (word "identities" ∷ []);
  secured = true;
  responses =
      no_content_status ∷ unauthorized_status ∷ bad_request ∷ not_found_status
      ∷ internal_server_error ∷ [];
}

abbrev pub remove_identity_to_cluster_link_action : Action
remove_identity_to_cluster_link_action = record {
  verb = delete;
  path = under "clusters" (word "identities" ∷ []);
  secured = true;
  responses =
      no_content_status ∷ not_found_status ∷ internal_server_error ∷ unauthorized_status
      ∷ bad_request ∷ [];
}

abbrev pub clusters_action : Action
clusters_action = record {
  verb = get;
  path = under "user" (word "clusters" ∷ []);
  secured = true;
  responses = ok_status ∷ internal_server_error ∷ unauthorized_status ∷ [];
}

abbrev pub status_action : Action
status_action = record {
  verb = get;
  path = under "status" [];
  secured = false;
  responses = ok_status ∷ unavailable ∷ [];
}

abbrev pub actions : List Action
actions =
    list_action ∷ list_for_auth_client_action ∷ show_action ∷ show_for_auth_client_action
    ∷ create_action ∷ delete_action ∷ link_identity_to_cluster_action
    ∷ remove_identity_to_cluster_link_action ∷ clusters_action ∷ status_action ∷ []
