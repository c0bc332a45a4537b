-- ===== src/Service/Invariant/Reading.antt =====
-- The methods that read keep the service sound.
use fabric8_cluster.Common.{ℕ, String, Option, none, some, arith}
use fabric8_cluster.Platform.{Platform, IsLawful}
use fabric8_cluster.Exec.Keeping.{Keeps, pure-Keeps, raise-Keeps, if-Keeps, bind-Keeps}
use fabric8_cluster.Repository.Clusters as Rows
use fabric8_cluster.Repository.Identities
use fabric8_cluster.Service.Validation.{validate_url}
use fabric8_cluster.Service.Clusters
use fabric8_cluster.Service.Invariant.{IsSound, find_by_url-Keeps}

module _ (P : Platform) (L : IsLawful P) where
  row_load-Keeps : (id : ℕ) → Keeps (IsSound P) (Rows.load P id)
  unfolding Rows.load
  row_load-Keeps id = record { after = λ w h. ground arith }

  rows_list-Keeps : (t : Option String) → Keeps (IsSound P) (Rows.list P t)
  unfolding Rows.list
  rows_list-Keeps t = record { after = λ w h. ground arith }

  pub load-Keeps : (ctx : P.Context) (id : ℕ) → Keeps (IsSound P) (Clusters.load P ctx id)
  unfolding Clusters.load
  load-Keeps ctx id =
      if-Keeps (IsSound P) _ _ _
        (bind-Keeps (IsSound P) _ _ (row_load-Keeps id) (λ c. pure-Keeps (IsSound P) _))
        (raise-Keeps (IsSound P) _ _)

  pub load_for_auth-Keeps :
      (ctx : P.Context) (id : ℕ) → Keeps (IsSound P) (Clusters.load_for_auth P ctx id)
  unfolding Clusters.load_for_auth
  load_for_auth-Keeps ctx id =
      if-Keeps (IsSound P) _ _ _ (row_load-Keeps id) (raise-Keeps (IsSound P) _ _)

  find_valid-Keeps :
      (url : String) (r : Option String) → Keeps (IsSound P) (Clusters.find_valid P url r)
  unfolding Clusters.find_valid
  find_valid-Keeps url none = find_by_url-Keeps P L url
  find_valid-Keeps url (some m) = raise-Keeps (IsSound P) _ _

  find-Keeps : (url : String) → Keeps (IsSound P) (Clusters.find P url)
  unfolding Clusters.find
  find-Keeps url = find_valid-Keeps url (validate_url P.urls url)

  pub find_by_url_hidden-Keeps :
      (ctx : P.Context) (url : String) → Keeps (IsSound P) (Clusters.find_by_url P ctx url)
  unfolding Clusters.find_by_url
  find_by_url_hidden-Keeps ctx url =
      if-Keeps (IsSound P) _ _ _
        (bind-Keeps (IsSound P) _ _ (find-Keeps url) (λ c. pure-Keeps (IsSound P) _))
        (raise-Keeps (IsSound P) _ _)

  pub find_by_url_for_auth-Keeps :
      (ctx : P.Context) (url : String) → Keeps (IsSound P) (Clusters.find_by_url_for_auth P ctx url)
  unfolding Clusters.find_by_url_for_auth
  find_by_url_for_auth-Keeps ctx url =
      if-Keeps (IsSound P) _ _ _ (find-Keeps url) (raise-Keeps (IsSound P) _ _)

  pub list-Keeps : (ctx : P.Context) (t : Option String) → Keeps (IsSound P) (Clusters.list P ctx t)
  unfolding Clusters.list
  list-Keeps ctx t =
      if-Keeps (IsSound P) _ _ _
        (bind-Keeps (IsSound P) _ _ (rows_list-Keeps t) (λ cs. pure-Keeps (IsSound P) _))
        (raise-Keeps (IsSound P) _ _)

  pub list_for_auth-Keeps :
      (ctx : P.Context) (t : Option String) → Keeps (IsSound P) (Clusters.list_for_auth P ctx t)
  unfolding Clusters.list_for_auth
  list_for_auth-Keeps ctx t =
      if-Keeps (IsSound P) _ _ _ (rows_list-Keeps t) (raise-Keeps (IsSound P) _ _)

  pub list_clusters_for_identity-Keeps :
      (x : ℕ) → Keeps (IsSound P) (Identities.list_clusters_for_identity P x)
  unfolding Identities.list_clusters_for_identity
  list_clusters_for_identity-Keeps x = record { after = λ w h. ground arith }
