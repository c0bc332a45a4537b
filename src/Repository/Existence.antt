-- ===== src/Repository/Existence.antt =====
-- exists and the CheckExists functions of application/repository/base/exister.go, and CheckExists
-- of cluster/repository/cluster_repository.go.
use fabric8_cluster.Common.{String, ◌<>◌, Bool, true, false, ◌≡◌, ◌↔◌, arith, if◌then◌else◌}
use fabric8_cluster.Errors.{
  Result, ok, err, Reply, done, failed, not_found, internal, wrapped, database, Fetch-cases,
}
use fabric8_cluster.Platform.{Platform}

-- The text of the query.
unfoldable pub query_of : (table_name id_column_name : String) → Bool → String
query_of table_name id_column_name soft_deletable =
    "\n\t\tSELECT EXISTS (\n\t\t\tSELECT 1 FROM "
    <> table_name
    <> "\n\t\t\tWHERE\n\t\t\t\t"
    <> id_column_name
    <> "=$1\n"
    <> (if soft_deletable then "\t\t\t\tAND deleted_at IS NULL\n" else "")
    <> "\t\t)"

module _ (P : Platform) (s : P.State) where
  scanned : String → String → Reply Bool → Result Bool
  scanned table_name id (done b) = if b then ok b else err (not_found table_name id)
  scanned table_name id (failed e) =
      err (internal (wrapped (database e) ("unable to verify if " <> table_name <> " exists")))

  unfoldable pub exists : (table_name id_column_name id : String) → Bool → Result Bool
  unfolding scanned
  exists table_name id_column_name id soft_deletable =
      scanned table_name id
        (P.query_exists s (query_of table_name id_column_name soft_deletable) id)

  abbrev error_of : Result Bool → Result Unit
  error_of (ok b) = ok tt
  error_of (err e) = err e

  unfoldable pub check_exists : (table_name id : String) → Result Unit
  check_exists table_name id = error_of (exists table_name "id" id true)

  unfoldable pub check_exists_with_custom_id_column :
      (table_name id_column_name id : String) → Result Unit
  check_exists_with_custom_id_column table_name id_column_name id =
      error_of (exists table_name id_column_name id true)

  unfoldable pub check_hard_deletable_exists : (table_name id_column_name id : String) → Result Unit
  check_hard_deletable_exists table_name id_column_name id =
      error_of (exists table_name id_column_name id false)

  -- `CheckExists` of the cluster repository.
  unfoldable pub check_cluster_exists : String → Result Unit
  check_cluster_exists id = check_hard_deletable_exists "cluster" "cluster_id" id

  -- check_cluster_exists returns no error if and only if the query for the cluster's id in the
  -- table cluster, without regard to soft deletion, says that there is a row.
  pub check_cluster_exists_iff :
      (id : String)
      → (check_cluster_exists id ≡ ok tt) ↔ (
          P.query_exists s
            "\n\t\tSELECT EXISTS (\n\t\t\tSELECT 1 FROM cluster\n\t\t\tWHERE\n\t\t\t\tcluster_id=$1\n\t\t)"
            id
          ≡ done true)
  unfolding check_cluster_exists check_hard_deletable_exists exists query_of
  check_cluster_exists_iff id =
      ground (arith, Fetch-cases (P.query_exists s (query_of "cluster" "cluster_id" false) id))
