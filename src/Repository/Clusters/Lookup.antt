-- ===== src/Repository/Clusters/Lookup.antt =====
-- What the lookups of the repository tell of the tables.
use fabric8_cluster.Common.{ℕ, ◌≡◌, ◌≢◌, String, none, some, true, arith}
use fabric8_cluster.Errors.{Error, Result, ok, err, is_not_found}
use fabric8_cluster.Model.{Cluster}
use fabric8_cluster.Platform.{Platform}
use fabric8_cluster.Platform.Tables.{IsReading}
use fabric8_cluster.Exec.{World}
use fabric8_cluster.Repository.Clusters.{load, find_by_url}

module _ (P : Platform) (R : IsReading P.db) (w : World P.State) where
  pub load_ok :
      (i : ℕ) (c : Cluster) (w' : World P.State)
      → load P i w ≡ (ok c, w')
      → (P.row w.store i ≡ some c) × (w' ≡ w)
  unfolding load
  load_ok i c w' e = ground (arith, R.find_by_id_done w.store i c)

  -- Load fails with a driver's error, or with "not found" where there is no row.
  pub load_err :
      (i : ℕ) (e : Error) (w' : World P.State)
      → load P i w ≡ (err e, w')
      → (w' ≡ w) × (is_not_found e ≡ true → P.row w.store i ≡ none)
  unfolding load
  load_err i e w' h = ground (arith, R.find_by_id_missing w.store i)

  pub find_by_url_ok :
      (u : String) (c : Cluster) (w' : World P.State)
      → find_by_url P u w ≡ (ok c, w')
      → (P.row w.store c.cluster_id ≡ some c) × (c.url ≡ P.urls.add_trailing_slash u) × (w' ≡ w)
  unfolding find_by_url
  find_by_url_ok u c w' e =
      ground (arith, R.find_by_url_done w.store (P.urls.add_trailing_slash u) c)

  pub find_by_url_same :
      (u : String) (r : Result Cluster) (w' : World P.State) → find_by_url P u w ≡ (r, w') → w' ≡ w
  unfolding find_by_url
  find_by_url_same u r w' e = ground arith

  -- `find_by_url` says "not found" only where no row has the url with its slash.
  pub find_by_url_missing :
      (u : String) (e : Error) (w' : World P.State) (i : ℕ) (c : Cluster)
      → find_by_url P u w ≡ (err e, w')
      → is_not_found e ≡ true
      → P.row w.store i ≡ some c
      → c.url ≢ P.urls.add_trailing_slash u
  unfolding find_by_url
  find_by_url_missing u e w' i c h n at =
      ground (arith, R.find_by_url_missing w.store (P.urls.add_trailing_slash u) i c)
