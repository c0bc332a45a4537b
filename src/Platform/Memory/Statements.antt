-- ===== src/Platform/Memory/Statements.antt =====
-- The statements, on a log. A write that a constraint forbids fails and changes nothing.
use fabric8_cluster.Common.{ℕ, String, Bool, false, not, ◌&&◌, Option, none, some, List, [], ◌∷◌}
use fabric8_cluster.Common.{◌==◌, nat_eq, string_eq, if◌then◌else◌}
use fabric8_cluster.Errors.{Reply, done, failed, record_not_found, driver}
use fabric8_cluster.Model.{Cluster, IdentityCluster}
use fabric8_cluster.Platform.Tables.{Database}
use fabric8_cluster.Platform.Memory.Rows.{
  Log, put, drop, link, unlink, at_url, row, linked, is_some, free_for,
}

abbrev pub fetched : {A : Type 0} → Option A → Reply A
fetched none = failed record_not_found
fetched (some a) = done a

abbrev pub find_by_id : Log → ℕ → Reply Cluster
find_by_id s i = fetched (row s i)

abbrev pub row_of : Log → Option ℕ → Reply Cluster
row_of s none = failed record_not_found
row_of s (some i) = find_by_id s i

abbrev pub find_by_url : Log → String → Reply Cluster
find_by_url s u = row_of s (at_url s u)

abbrev pub without : ℕ → List Cluster → List Cluster
without i [] = []
without i (c ∷ cs) = let rest = without i cs in if c.cluster_id == i then rest else c ∷ rest

abbrev pub rows_of : Log → List Cluster
rows_of [] = []
rows_of (put c ∷ s) =
    let rest = rows_of s in
    if free_for c.cluster_id (at_url s c.url) then c ∷ without c.cluster_id rest else rest
rows_of (drop i ∷ s) = without i (rows_of s)
rows_of (link x i ∷ s) = rows_of s
rows_of (unlink x i ∷ s) = rows_of s

abbrev pub of_type : String → List Cluster → List Cluster
of_type t [] = []
of_type t (c ∷ cs) = let rest = of_type t cs in if c.cluster_type == t then c ∷ rest else rest

abbrev pub find_all : Log → Option String → Reply (List Cluster)
find_all s none = done (rows_of s)
find_all s (some t) = done (of_type t (rows_of s))

abbrev pub allowed : Log → Cluster → Bool
allowed s c =
    not (is_some (row s c.cluster_id))
    && not (is_some (at_url s c.url))
    && not (c.url == "")
    && not (c.app_dns == "")

abbrev pub stamped : Cluster → Cluster
stamped c = record c { created_at = 1; updated_at = 1 }

abbrev pub insert_cluster : Log → Cluster → Reply Cluster × Log
insert_cluster s c =
    if allowed s c
    then (done (stamped c), put (stamped c) ∷ s)
    else (failed (driver "duplicate key or blank column"), s)

abbrev pub touched : Cluster → Cluster
touched c = record c { updated_at = 2 }

abbrev pub save_cluster : Log → Cluster → Reply Cluster × Log
save_cluster s c =
    if free_for c.cluster_id (at_url s c.url)
    then (done (touched c), put (touched c) ∷ s)
    else (failed (driver "duplicate key"), s)

abbrev pub one_if : Bool → ℕ
one_if b = if b then 1 else 0

abbrev pub delete_cluster : Log → ℕ → Reply ℕ × Log
delete_cluster s i = (done (one_if (is_some (row s i))), drop i ∷ s)

abbrev pub find_link : Log → ℕ → ℕ → Reply IdentityCluster
find_link s x i =
    if linked s x i
    then fetched (elim (row s i) [
      | none ↦ none
      | some c ↦ some (record { identity_id = x; cluster_id = i; cluster = c })
    ])
    else failed record_not_found

abbrev pub links_of : Log → ℕ → List Cluster → List IdentityCluster
links_of s x [] = []
links_of s x (c ∷ cs) =
    let rest = links_of s x cs in
    if linked s x c.cluster_id
    then record { identity_id = x; cluster_id = c.cluster_id; cluster = c } ∷ rest
    else rest

abbrev pub insert_link : Log → ℕ → ℕ → Reply Unit × Log
insert_link s x i =
    if not (linked s x i) && is_some (row s i)
    then (done tt, link x i ∷ s)
    else (failed (driver "duplicate key or no such cluster"), s)

abbrev pub unlink_at : Log → ℕ → Option ℕ → Reply ℕ × Log
unlink_at s x none = (done 0, s)
unlink_at s x (some i) = if linked s x i then (done 1, unlink x i ∷ s) else (done 0, s)

abbrev pub delete_link : Log → ℕ → String → Reply ℕ × Log
delete_link s x u = unlink_at s x (at_url s u)

abbrev pub database : Database
database = record {
  State = Log;
  row = row;
  linked = linked;
  find_by_id = find_by_id;
  find_by_url = find_by_url;
  find_all = find_all;
  insert_cluster = insert_cluster;
  save_cluster = save_cluster;
  delete_cluster = delete_cluster;
  query_exists = λ s q id. done false;
  find_link = find_link;
  find_links = λ s x. done (links_of s x (rows_of s));
  insert_link = insert_link;
  delete_link = delete_link;
  begin = λ s. done tt;
  set_isolation = λ s level. done tt;
  commit = λ s t. (done tt, t);
  rollback = λ s t. s;
  expires = λ s t. false;
}
