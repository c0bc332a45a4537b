-- ===== src/Tests/Handlers.antt =====
-- The handlers at concrete requests.
use fabric8_cluster.Common.{
  ℕ, String, Bool, ◌≡◌, ◌<>◌, refl, is_blank, some, none, true, false, [], ◌∷◌, nat_eq, string_eq,
}
use fabric8_cluster.Errors.{unauthorized, bad_parameter_msg}
use fabric8_cluster.Model.{Cluster}
use fabric8_cluster.Exec.{World}
use fabric8_cluster.Transaction.{
  in_transaction, execute_in_transaction, begin_transaction, select, entered, end_transaction,
}
use fabric8_cluster.Platform.{auth, tenant, tool_chain_operator}
use fabric8_cluster.Platform.Memory.{memory, memory-IsLawful}
use fabric8_cluster.Platform.Memory.Laws.{reliable}
use fabric8_cluster.Platform.Memory.Texts.{web}
use fabric8_cluster.Platform.Memory.Rows.{Log, put}
use fabric8_cluster.Repository.Normalize.{normalize, convert_api_url}
use fabric8_cluster.Repository.Clusters as Rows
use fabric8_cluster.Repository.Clusters.Upsert.{Puts}
use fabric8_cluster.Service.Validation.{
  check, validate_url, check_url, check_optional_url, check_given, check_type,
}
use fabric8_cluster.Service.Validation.Laws.{IsValid}
use fabric8_cluster.Service.Clusters.{validate, create_or_save_cluster}
use fabric8_cluster.Controller.Data.{CreateClusterData, payload_cluster, created, error_response}
use fabric8_cluster.Controller.Clusters.{
  create, link_identity_to_cluster, remove_identity_to_cluster_link,
}
use fabric8_cluster.Controller.Clusters.Writes.{create-created}
use fabric8_cluster.Tests.Data.{east, east_row, world, empty_log, east_log}

abbrev payload : CreateClusterData
payload = record {
  name = "east";
  cluster_type = east.cluster_type;
  api_url = east.url;
  app_dns = east.app_dns;
  service_account_token = "token";
  service_account_username = "user";
  auth_client_id = "client";
  auth_client_secret = "secret";
  auth_client_default_scope = "scope";
  console_url = none;
  logging_url = none;
  metrics_url = none;
  capacity_exhausted = none;
  token_provider_id = some "provider";
}

abbrev plain_row : Cluster
plain_row = record east_row { sa_token_encrypted = false }

abbrev href : String → String
href id = "/api/clusters/" <> id

abbrev created_world : World Log
created_world = record (world (put plain_row ∷ [])) { drawn = 1 }

create_east :
    create memory href tool_chain_operator payload (world empty_log)
    ≡ (created "/api/clusters/uuid", created_world)
unfolding create payload_cluster validate check check_url check_optional_url check_given check_type
    validate_url Rows.create_or_save Rows.find_by_url Rows.create Rows.insert_normalized normalize
    convert_api_url is_blank create_or_save_cluster in_transaction execute_in_transaction
    begin_transaction select entered end_transaction string_eq nat_eq
create_east = refl

create-created_example :
    (r : Cluster) × ("/api/clusters/uuid" ≡ href (memory.uuid_string r.cluster_id))
    × (memory.is_specific_service_account tool_chain_operator (tool_chain_operator ∷ []) ≡ true)
    × IsValid web (payload_cluster payload)
    × Puts memory empty_log created_world.store
        (record (payload_cluster payload) { token_provider_id = r.token_provider_id })
        r
create-created_example =
    create-created memory memory-IsLawful tool_chain_operator (world empty_log) created_world refl
      reliable.durable href payload "/api/clusters/uuid" create_east

create_refused :
    create memory href tenant payload (world east_log)
    ≡ (error_response (unauthorized "unauthorized access to cluster info"), world east_log)
unfolding create create_or_save_cluster nat_eq
create_refused = refl

abbrev no_uuid : String → ℕ × Bool
no_uuid s = (0, false)

link_malformed :
    link_identity_to_cluster memory no_uuid auth "x" "https://api.east.com" none (world east_log)
    ≡ (error_response (bad_parameter_msg "identity-id uuid is not a valid UUID"), world east_log)
unfolding link_identity_to_cluster
link_malformed = refl

remove_malformed :
    remove_identity_to_cluster_link memory no_uuid auth "x" "https://api.east.com" (world east_log)
    ≡ (error_response (bad_parameter_msg "identity-id uuid is not a valid UUID"), world east_log)
unfolding remove_identity_to_cluster_link
remove_malformed = refl
