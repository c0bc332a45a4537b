-- ===== src/Tests/Designed.antt =====
-- Requests on the API as it is designed.
use fabric8_cluster.Common.{String, true, [], ◌∷◌, refl, Among, string_eq, nat_eq, arith}
use fabric8_cluster.Errors.{
  Error, unauthorized, not_found, not_found_msg, bad_parameter, bad_parameter_msg, wrapped,
}
use fabric8_cluster.Platform.{auth}
use fabric8_cluster.Platform.Memory.{memory}
use fabric8_cluster.Platform.Memory.Texts.{web}
use fabric8_cluster.Exec.Raising.{Failing}
use fabric8_cluster.Exec.Faults.{Bad}
use fabric8_cluster.Repository.Clusters as Rows
use fabric8_cluster.Service.Clusters as Service
use fabric8_cluster.Controller.Clusters as Controller
use fabric8_cluster.System.{Request}
use fabric8_cluster.Design.{
  Status, bad_request, unauthorized_status, not_found_status, internal_server_error,
}
use fabric8_cluster.Design.Responses.{IsStatus}
use fabric8_cluster.Design.Faults.{error_answered}
use fabric8_cluster.Design.Answers.{error_answered-declared}
use fabric8_cluster.Tests.Data.{world, empty_log}

abbrev status : Error → Status
status (unauthorized m) = unauthorized_status
status (not_found x v) = not_found_status
status (not_found_msg m) = not_found_status
status (bad_parameter x v) = bad_request
status (bad_parameter_msg m) = bad_request
status (wrapped e m) = status e
status _ = internal_server_error

status-IsStatus : IsStatus status
status-IsStatus = record {
  unauthorized_is = λ m. refl;
  not_found_is = λ x v. refl;
  not_found_msg_is = λ m. refl;
  bad_parameter_is = λ x v. refl;
  bad_parameter_msg_is = λ m. refl;
  internal_msg_is = λ m. refl;
  internal_is = λ e. refl;
  database_is = λ d. refl;
  text_is = λ m. refl;
  wrapped_is = λ e m. refl;
}

hosts : (h prefix : String) → Failing Bad (web.replace_domain_prefix h prefix)
hosts h prefix = ground arith

-- There is no cluster 5.
error_answered-declared_example :
    Among not_found_status
      (Status.ok_status ∷ unauthorized_status ∷ not_found_status ∷ internal_server_error ∷ [])
unfolding error_answered Controller.show Service.load Rows.load nat_eq
error_answered-declared_example =
    error_answered-declared memory hosts (λ s. s) (λ s. (0, true)) status status-IsStatus
      (Request.show auth 5) (world empty_log) (not_found "cluster" "uuid") tt refl
