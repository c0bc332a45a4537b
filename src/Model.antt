-- ===== src/Model.antt =====
-- The structs of cluster/repository and the cluster types of cluster/cluster.go. A uuid is the
-- number that its 16 bytes stand for; a time is a number of seconds.
use fabric8_cluster.Common.{ℕ, String, Bool}

abbrev pub osd : String
osd = "OSD"

abbrev pub ocp : String
ocp = "OCP"

abbrev pub oso : String
oso = "OSO"

-- `uuid.Nil`
abbrev pub nil_uuid : ℕ
nil_uuid = 0

pub record Cluster : Type 0 where
  pub created_at : ℕ
  pub updated_at : ℕ
  pub cluster_id : ℕ
  pub name : String
  pub url : String
  pub console_url : String
  pub metrics_url : String
  pub logging_url : String
  pub app_dns : String
  pub sa_token : String
  pub sa_username : String
  pub sa_token_encrypted : Bool
  pub token_provider_id : String
  pub auth_client_id : String
  pub auth_client_secret : String
  pub auth_default_scope : String
  pub cluster_type : String
  pub capacity_exhausted : Bool

-- A link of an identity to a cluster. `cluster` is the row that gorm's Preload fills in.
pub record IdentityCluster : Type 0 where
  pub identity_id : ℕ
  pub cluster_id : ℕ
  pub cluster : Cluster
