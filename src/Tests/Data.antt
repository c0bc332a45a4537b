-- ===== src/Tests/Data.antt =====
-- The clusters, tables and requests that the tests use.
use fabric8_cluster.Common.{true, false, [], ◌∷◌}
use fabric8_cluster.Errors.{ok, err, text}
use fabric8_cluster.Model.{Cluster, osd}
use fabric8_cluster.Exec.{World}
use fabric8_cluster.Transaction.{Work, returned}
use fabric8_cluster.Platform.Memory.Rows.{Log, put, link}

-- A cluster as the operator sends it, and its row.
abbrev pub east : Cluster
east = record {
  created_at = 0;
  updated_at = 0;
  cluster_id = 0;
  name = "east";
  url = "https://api.east.com";
  console_url = "";
  metrics_url = "";
  logging_url = "";
  app_dns = "east.com";
  sa_token = "token";
  sa_username = "user";
  sa_token_encrypted = true;
  token_provider_id = "provider";
  auth_client_id = "client";
  auth_client_secret = "secret";
  auth_default_scope = "scope";
  cluster_type = osd;
  capacity_exhausted = false;
}

abbrev pub east_normal : Cluster
east_normal = record east {
  url = "https://api.east.com/";
  console_url = "https://console.east.com/console/";
  metrics_url = "https://metrics.east.com/";
  logging_url = "https://console.east.com/console/";
  app_dns = "east.com/";
}

abbrev pub east_row : Cluster
east_row = record east_normal { created_at = 1; updated_at = 1; cluster_id = 1 }

-- Another row, which no configuration names.
abbrev pub west_row : Cluster
west_row = record east_row { cluster_id = 9; name = "west"; url = "https://api.west.com/" }

abbrev pub world : Log → World Log
world s = record { store = s; drawn = 0; in_transaction = false; isolation = ""; unended = 0 }

abbrev pub empty_log : Log
empty_log = []

-- The tables with one cluster, and with the identity 7 linked to it.
abbrev pub east_log : Log
east_log = put east_row ∷ []

abbrev pub linked_log : Log
linked_log = link 7 1 ∷ east_log

-- A piece of work that writes a row, and one that fails after it.
abbrev pub write_west : Work Log Unit
write_west w = (returned (ok tt), record w { store = put west_row ∷ w.store })

abbrev pub write_and_fail : Work Log Unit
write_and_fail w = (returned (err (text "failed")), record w { store = put west_row ∷ w.store })
