-- ===== src/Controller/Data.antt =====
-- What the handlers answer with, and the conversions at the end of controller/clusters.go. The
-- structs of the generated package app are read off the fields that the handlers set.
use fabric8_cluster.Common.{String, Bool, false, Option, none, some}
use fabric8_cluster.Errors.{Error, Result, ok, err}
use fabric8_cluster.Model.{Cluster, nil_uuid}
use fabric8_cluster.Platform.Web.{Urls}
use fabric8_cluster.Exec.{World}

-- `ctx.OK(x)`, `ctx.Created()` with its Location, `ctx.NoContent()`, `ctx.ServiceUnavailable(x)`
-- and `app.JSONErrorResponse(ctx, err)`.
pub data Response (A : Type 0) : Type 0 where
  replied : A → Response A
  created : String → Response A
  no_content : Response A
  service_unavailable : A → Response A
  error_response : Error → Response A

abbrev pub Handler : Type 0 → Type 0 → Type 0
Handler S A = World S → Response A × World S

-- `if err != nil { … }` at the end of a handler.
abbrev pub respond :
    {A B S : Type 0}
    → (A → Response B)
    → (Error → Response B)
    → Result A × World S
    → Response B × World S
respond f g (ok a, w) = (f a, w)
respond f g (err e, w) = (g e, w)

pub record ClusterData : Type 0 where
  pub name : String
  pub api_url : String
  pub console_url : String
  pub metrics_url : String
  pub logging_url : String
  pub app_dns : String
  pub cluster_type : String
  pub capacity_exhausted : Bool

pub record FullClusterData : Type 0 where
  pub name : String
  pub api_url : String
  pub console_url : String
  pub metrics_url : String
  pub logging_url : String
  pub app_dns : String
  pub cluster_type : String
  pub capacity_exhausted : Bool
  pub auth_client_default_scope : String
  pub auth_client_id : String
  pub auth_client_secret : String
  pub sa_token_encrypted : Option Bool
  pub service_account_token : String
  pub service_account_username : String
  pub token_provider_id : String

-- The payload of a request that creates a cluster.
pub record CreateClusterData : Type 0 where
  pub name : String
  pub cluster_type : String
  pub api_url : String
  pub app_dns : String
  pub service_account_token : String
  pub service_account_username : String
  pub auth_client_id : String
  pub auth_client_secret : String
  pub auth_client_default_scope : String
  pub console_url : Option String
  pub logging_url : Option String
  pub metrics_url : Option String
  pub capacity_exhausted : Option Bool
  pub token_provider_id : Option String

-- `if p != nil { x = *p }`, where `x` is `d` at first.
abbrev pub given_or : {A : Type 0} → A → Option A → A
given_or d none = d
given_or d (some a) = a

-- The struct that `Create` builds from its payload.
unfoldable pub payload_cluster : CreateClusterData → Cluster
payload_cluster p = record {
  created_at = 0;
  updated_at = 0;
  cluster_id = nil_uuid;
  name = p.name;
  url = p.api_url;
  console_url = given_or "" p.console_url;
  metrics_url = given_or "" p.metrics_url;
  logging_url = given_or "" p.logging_url;
  app_dns = p.app_dns;
  sa_token = p.service_account_token;
  sa_username = p.service_account_username;
  sa_token_encrypted = false;
  token_provider_id = given_or "" p.token_provider_id;
  auth_client_id = p.auth_client_id;
  auth_client_secret = p.auth_client_secret;
  auth_default_scope = p.auth_client_default_scope;
  cluster_type = p.cluster_type;
  capacity_exhausted = given_or false p.capacity_exhausted;
}

module _ (U : Urls) where
  unfoldable pub convert_to_cluster_data : Cluster → ClusterData
  convert_to_cluster_data c = record {
    name = c.name;
    api_url = U.add_trailing_slash c.url;
    console_url = U.add_trailing_slash c.console_url;
    metrics_url = U.add_trailing_slash c.metrics_url;
    logging_url = U.add_trailing_slash c.logging_url;
    app_dns = c.app_dns;
    cluster_type = c.cluster_type;
    capacity_exhausted = c.capacity_exhausted;
  }

  unfoldable pub convert_to_full_cluster_data : Cluster → FullClusterData
  convert_to_full_cluster_data c = record {
    name = c.name;
    api_url = U.add_trailing_slash c.url;
    console_url = U.add_trailing_slash c.console_url;
    metrics_url = U.add_trailing_slash c.metrics_url;
    logging_url = U.add_trailing_slash c.logging_url;
    app_dns = c.app_dns;
    cluster_type = c.cluster_type;
    capacity_exhausted = c.capacity_exhausted;
    auth_client_default_scope = c.auth_default_scope;
    auth_client_id = c.auth_client_id;
    auth_client_secret = c.auth_client_secret;
    sa_token_encrypted = some c.sa_token_encrypted;
    service_account_token = c.sa_token;
    service_account_username = c.sa_username;
    token_provider_id = c.token_provider_id;
  }
