-- ===== src/Tests/Saving.antt =====
-- A save of the operator on an empty table.
use fabric8_cluster.Common.{◌≡◌, refl, is_blank, nat_eq, string_eq}
use fabric8_cluster.Errors.{ok}
use fabric8_cluster.Model.{Cluster}
use fabric8_cluster.Exec.{World}
use fabric8_cluster.Platform.{tool_chain_operator}
use fabric8_cluster.Platform.Memory.{memory, memory-IsLawful}
use fabric8_cluster.Platform.Memory.Working.{working}
use fabric8_cluster.Platform.Memory.Rows.{Log}
use fabric8_cluster.Platform.Memory.Texts.{web}
use fabric8_cluster.Repository.Normalize.{normalize, convert_api_url}
use fabric8_cluster.Service.Validation.{
  check, validate_url, check_url, check_optional_url, check_given, check_type,
}
use fabric8_cluster.Service.Validation.Laws.{check_iff}
use fabric8_cluster.Service.Clusters.{create_or_save_cluster}
use fabric8_cluster.Service.Clusters.Working.{create_or_save_cluster_works}
use fabric8_cluster.Tests.Data.{east, east_normal, world, empty_log}

normal : normalize memory.urls east ≡ ok east_normal
unfolding normalize convert_api_url is_blank string_eq nat_eq
normal = refl

checked : check web east ≡ ok tt
unfolding check check_url check_optional_url check_given check_type validate_url is_blank string_eq
    nat_eq
checked = refl

create_or_save_cluster_works_example :
    (r : Cluster) × (w' : World Log) × (create_or_save_cluster memory tool_chain_operator east
        (world empty_log)
      ≡ (ok r, w'))
unfolding nat_eq
create_or_save_cluster_works_example =
    create_or_save_cluster_works memory memory-IsLawful working east east_normal (world empty_log)
      normal refl (λ k. refl) tool_chain_operator refl ((check_iff web east).0 checked)
      (λ e. absurd (cc)) (λ e. absurd (cc)) refl
