-- ===== src/Platform/Tables.antt =====
-- The statements that the repositories send through gorm, over an unknown state of the database.
-- `row` and `linked` say what the tables `cluster` and `identity_cluster` hold.
use fabric8_cluster.Common.{
  ℕ, String, Bool, true, false, Option, none, some, List, [], ◌∷◌, ◌≡◌, ◌≢◌, ◌⊎◌,
}
use fabric8_cluster.Common.{Among, ◌==◌, nat_eq, if◌then◌else◌, ◌&&◌}
use fabric8_cluster.Errors.{Reply, done, failed, record_not_found, DbError, driver}
use fabric8_cluster.Model.{Cluster, IdentityCluster, nil_uuid}

pub record Database : Type 1 where
  pub State : Type 0
  -- The row with a primary key, and whether an identity and a cluster are linked.
  pub row : State → ℕ → Option Cluster
  pub linked : State → ℕ → ℕ → Bool
  -- `Table("cluster").Where("cluster_id = ?", id).Find`, and the same by url
  pub find_by_id : State → ℕ → Reply Cluster
  pub find_by_url : State → String → Reply Cluster
  -- `Table("cluster").Find`, with `Where("type = ?", t)` if a type is given
  pub find_all : State → Option String → Reply (List Cluster)
  -- `Create(c)` and `Save(c)`: the struct as gorm leaves it, with its time stamps
  pub insert_cluster : State → Cluster → Reply Cluster × State
  pub save_cluster : State → Cluster → Reply Cluster × State
  -- `Delete(&Cluster{ClusterID: id})`: the number of rows affected
  pub delete_cluster : State → ℕ → Reply ℕ × State
  -- `QueryRow(query, id).Scan(&exists)`, of a query with one Boolean for its result
  pub query_exists : State → String → String → Reply Bool
  -- `identity_cluster`, by identity and cluster and by identity alone, with Preload("Cluster")
  pub find_link : State → ℕ → ℕ → Reply IdentityCluster
  pub find_links : State → ℕ → Reply (List IdentityCluster)
  pub insert_link : State → ℕ → ℕ → Reply Unit × State
  -- `delete from identity_cluster where identity_id = ? and cluster_id =
  -- (select cluster_id from cluster where url = ?)`: the number of rows affected
  pub delete_link : State → ℕ → String → Reply ℕ × State
  -- Transactions. `set_isolation` sends "set transaction isolation level …";
  -- `commit s t` and `rollback s t` end one that began at `s` and has come to `t`.
  pub begin : State → Reply Unit
  pub set_isolation : State → String → Reply Unit
  pub commit : State → State → Reply Unit × State
  pub rollback : State → State → State
  -- Whether the transaction's deadline passes before the work from `s` to `t` is done.
  pub expires : State → State → Bool

-- A read tells the truth. A failure by the driver is always possible.
pub record IsReading (D : Database) : Type 0 where
  pub find_by_id_done :
      (s : D.State) (i : ℕ) (c : Cluster) → D.find_by_id s i ≡ done c → D.row s i ≡ some c
  pub find_by_id_missing :
      (s : D.State) (i : ℕ) → D.find_by_id s i ≡ failed record_not_found → D.row s i ≡ none
  pub find_by_url_done :
      (s : D.State) (u : String) (c : Cluster)
      → D.find_by_url s u ≡ done c
      → (D.row s c.cluster_id ≡ some c) × (c.url ≡ u)
  pub find_by_url_missing :
      (s : D.State) (u : String) (i : ℕ) (c : Cluster)
      → D.find_by_url s u ≡ failed record_not_found
      → D.row s i ≡ some c
      → c.url ≢ u
  pub find_link_done :
      (s : D.State) (x i : ℕ) (l : IdentityCluster)
      → D.find_link s x i ≡ done l
      → D.linked s x i ≡ true
  pub find_link_missing :
      (s : D.State) (x i : ℕ) → D.find_link s x i ≡ failed record_not_found → D.linked s x i ≡ false

-- The tables' constraints, which hold in every state: the primary key, the unique index on the
-- url, and the foreign key of the links (migration/sql-files).
pub record IsConstrained (D : Database) : Type 0 where
  pub primary_key : (s : D.State) (i : ℕ) (c : Cluster) → D.row s i ≡ some c → c.cluster_id ≡ i
  pub unique_url :
      (s : D.State) (i j : ℕ) (c d : Cluster)
      → D.row s i ≡ some c
      → D.row s j ≡ some d
      → c.url ≡ d.url
      → i ≡ j
  pub foreign_key : (s : D.State) (x i : ℕ) → D.linked s x i ≡ true → D.row s i ≢ none

-- A write changes what it names and nothing else, and nothing at all if it fails.
pub record IsWriting (D : Database) : Type 0 where
  pub insert_cluster_done :
      (s : D.State) (c r : Cluster) (t : D.State)
      → D.insert_cluster s c ≡ (done r, t)
      → (r ≡ record c { created_at = r.created_at; updated_at = r.updated_at })
        × (D.row s c.cluster_id ≡ none)
        × ((j : ℕ) → D.row t j ≡ (if j == c.cluster_id then some r else D.row s j))
        × ((x j : ℕ) → D.linked t x j ≡ D.linked s x j)
  pub insert_cluster_failed :
      (s : D.State) (c : Cluster) (e : DbError) (t : D.State)
      → D.insert_cluster s c ≡ (failed e, t)
      → t ≡ s
  pub save_cluster_done :
      (s : D.State) (c r old : Cluster) (t : D.State)
      → D.row s c.cluster_id ≡ some old
      → D.save_cluster s c ≡ (done r, t)
      → (r ≡ record c { updated_at = r.updated_at })
        × ((j : ℕ) → D.row t j ≡ (if j == c.cluster_id then some r else D.row s j))
        × ((x j : ℕ) → D.linked t x j ≡ D.linked s x j)
  pub save_cluster_failed :
      (s : D.State) (c : Cluster) (e : DbError) (t : D.State)
      → D.save_cluster s c ≡ (failed e, t)
      → t ≡ s
  -- With the nil uuid gorm would delete every row.
  pub delete_cluster_done :
      (s : D.State) (i n : ℕ) (t : D.State)
      → i ≢ nil_uuid
      → D.delete_cluster s i ≡ (done n, t)
      → (n ≡ 0 → D.row s i ≡ none)
        × ((j : ℕ) → D.row t j ≡ (if j == i then none else D.row s j))
        × ((x j : ℕ) → D.linked t x j ≡ (if j == i then false else D.linked s x j))
  pub delete_cluster_failed :
      (s : D.State) (i : ℕ) (e : DbError) (t : D.State)
      → D.delete_cluster s i ≡ (failed e, t)
      → t ≡ s
  pub insert_link_done :
      (s : D.State) (x i : ℕ) (t : D.State)
      → D.insert_link s x i ≡ (done tt, t)
      → (D.linked s x i ≡ false)
        × ((j : ℕ) → D.row t j ≡ D.row s j)
        × ((y j : ℕ) → D.linked t y j ≡ (if y == x && j == i then true else D.linked s y j))
  pub insert_link_failed :
      (s : D.State) (x i : ℕ) (e : DbError) (t : D.State)
      → D.insert_link s x i ≡ (failed e, t)
      → t ≡ s
  -- No row is at the url; or one is, and its link is taken away.
  pub delete_link_done :
      (s : D.State) (x n : ℕ) (u : String) (t : D.State)
      → D.delete_link s x u ≡ (done n, t)
      → ((n ≡ 0)
          × (t ≡ s)
          × ((i : ℕ) (c : Cluster) → D.row s i ≡ some c → c.url ≡ u → D.linked s x i ≡ false))
        ⊎ ((i : ℕ) × (c : Cluster) × (n ≢ 0)
            × (D.row s i ≡ some c)
            × (c.url ≡ u)
            × (D.linked s x i ≡ true)
            × ((j : ℕ) → D.row t j ≡ D.row s j)
            × ((y j : ℕ) → D.linked t y j ≡ (if y == x && j == i then false else D.linked s y j)))
  pub delete_link_failed :
      (s : D.State) (x : ℕ) (u : String) (e : DbError) (t : D.State)
      → D.delete_link s x u ≡ (failed e, t)
      → t ≡ s

-- No two clusters of the list have the same id.
abbrev pub Distinct : List Cluster → Type 0
Distinct [] = Unit
Distinct (c ∷ cs) = ((d : Cluster) → Among d cs → c.cluster_id ≢ d.cluster_id) × Distinct cs

-- Listing gives every row once, and nothing else.
pub record IsListing (D : Database) : Type 0 where
  pub find_all_sound :
      (s : D.State) (cs : List Cluster) (c : Cluster)
      → D.find_all s none ≡ done cs
      → Among c cs
      → D.row s c.cluster_id ≡ some c
  pub find_all_complete :
      (s : D.State) (cs : List Cluster) (i : ℕ) (c : Cluster)
      → D.find_all s none ≡ done cs
      → D.row s i ≡ some c
      → Among c cs
  pub find_all_once : (s : D.State) (cs : List Cluster) → D.find_all s none ≡ done cs → Distinct cs
  pub find_all_missing :
      (s : D.State) (i : ℕ) → D.find_all s none ≡ failed record_not_found → D.row s i ≡ none

-- A rollback goes back to where the transaction began, and a commit that succeeds keeps its work.
pub record IsTransactional (D : Database) : Type 0 where
  pub rollback_back : (s t : D.State) → D.rollback s t ≡ s
  pub commit_done : (s t u : D.State) → D.commit s t ≡ (done tt, u) → u ≡ t
  pub commit_failed : (s t u : D.State) (e : DbError) → D.commit s t ≡ (failed e, u) → u ≡ s

-- Every commit succeeds.
pub record IsDurable (D : Database) : Type 0 where
  pub commit_works : (s t : D.State) → (D.commit s t).0 ≡ done tt

-- Transactions and deletions always succeed.
pub record IsReliable (D : Database) : Type 0 where
  pub durable : IsDurable D
  pub begin_works : (s : D.State) → D.begin s ≡ done tt
  pub set_isolation_works : (s : D.State) (level : String) → D.set_isolation s level ≡ done tt
  pub in_time : (s t : D.State) → D.expires s t ≡ false
  pub find_by_id_works : (s : D.State) (i : ℕ) (m : String) → D.find_by_id s i ≢ failed (driver m)
  pub delete_cluster_works :
      (s : D.State) (i : ℕ) → (n : ℕ) × (t : D.State) × (D.delete_cluster s i ≡ (done n, t))

-- Every statement on clusters succeeds that no constraint forbids: the primary key, the unique index
-- on the url, and the checks that url and app_dns are not empty (migration/sql-files).
pub record IsWorking (D : Database) : Type 0 where
  pub reliable : IsReliable D
  pub find_by_url_works :
      (s : D.State) (u : String) (m : String) → D.find_by_url s u ≢ failed (driver m)
  pub insert_cluster_works :
      (s : D.State) (c : Cluster)
      → D.row s c.cluster_id ≡ none
      → ((i : ℕ) (d : Cluster) → D.row s i ≡ some d → d.url ≢ c.url)
      → c.url ≢ ""
      → c.app_dns ≢ ""
      → (r : Cluster) × (t : D.State) × (D.insert_cluster s c ≡ (done r, t))
  pub save_cluster_works :
      (s : D.State) (c old : Cluster)
      → D.row s c.cluster_id ≡ some old
      → ((i : ℕ) (d : Cluster) → D.row s i ≡ some d → d.url ≡ c.url → i ≡ c.cluster_id)
      → c.url ≢ ""
      → c.app_dns ≢ ""
      → (r : Cluster) × (t : D.State) × (D.save_cluster s c ≡ (done r, t))
