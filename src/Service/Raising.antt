-- ===== src/Service/Raising.antt =====
-- The errors of clusterService, by whose fault they are.
use fabric8_cluster.Common.{ℕ, String, Option, none, some, List, inl, inr, is_blank}
use fabric8_cluster.Errors.{Error, unauthorized, is_not_found}
use fabric8_cluster.Model.{Cluster}
use fabric8_cluster.Platform.{Platform, Account}
use fabric8_cluster.Exec.{Exec}
use fabric8_cluster.Exec.Raising.{
  Failing, Raises, Failing-weaken, if-Raises, handle-Raises, bind-Raises,
}
use fabric8_cluster.Exec.Faults.{Server, Bad, Missing, Denied, ◌or◌}
use fabric8_cluster.Repository.Normalize.Raising.{normalize-Failing}
use fabric8_cluster.Repository.Clusters as Rows
use fabric8_cluster.Repository.Clusters.Raising.{
  load-Raises, find_by_url-Raises, list-Raises, delete-Raises, create_or_save-Raises, Missing-found,
}
use fabric8_cluster.Transaction.{in_transaction}
use fabric8_cluster.Transaction.Raising.{in_transaction-Raises}
use fabric8_cluster.Service.Validation.{validate_url, check}
use fabric8_cluster.Service.Validation.Raising.{check-Failing}
use fabric8_cluster.Service.Clusters.{
  guarded, complete, validate, create_or_save_cluster, load, load_for_auth, find_valid, find,
  find_by_url, find_by_url_for_auth, delete, list, list_for_auth,
}

guarded-Raises :
    (P : Platform) {A : Type 0} (J : Error → Type 0) (ctx : P.Context) (names : List Account)
    (message : String) (m : Exec P.State A)
    → J (unauthorized message)
    → Raises J m
    → Raises J (guarded P ctx names message m)
guarded-Raises P J ctx names message m denied rm =
    if-Raises J (P.is_specific_service_account ctx names) m _ rm (λ w. denied)

module _ (P : Platform)
    (hosts : (h prefix : String) → Failing Bad (P.urls.replace_domain_prefix h prefix)) where
  -- A row that is missing is made up for.
  complete-Raises : (c : Cluster) → Raises Server (complete P c)
  unfolding complete Rows.draw_uuid
  complete-Raises c =
      handle-Raises Server (Missing or Server) (Rows.find_by_url P c.url) _ _
        (find_by_url-Raises P c.url) (λ existing w. tt)
        (λ e why. elim why [
          | inl missing ↦ rw (Missing-found e missing) (λ w. tt)
          | inr server ↦ if-Raises Server (is_not_found e) _ _ (λ w. tt) (λ w. server)
        ])

  validate-Raises : (c : Cluster) → Raises (Bad or Server) (validate P c)
  unfolding validate
  validate-Raises c =
      bind-Raises (Bad or Server) _ _
        (λ w.
          Failing-weaken Bad (Bad or Server) (λ e b. inl b) (check P.urls c)
            (check-Failing P.urls c))
        (λ u.
          if-Raises (Bad or Server) (is_blank c.token_provider_id) _ _
            (λ w.
              Failing-weaken Server (Bad or Server) (λ e s. inr s) (complete P c w).0
                (complete-Raises c w))
            (λ w. tt))

  pub create_or_save_cluster-Raises :
      (ctx : P.Context) (c : Cluster)
      → Raises (Denied or Bad or Server) (create_or_save_cluster P ctx c)
  unfolding create_or_save_cluster
  create_or_save_cluster-Raises ctx c =
      guarded-Raises P (Denied or Bad or Server) ctx _ _ _ (inl tt) (
        handle-Raises (Denied or Bad or Server) (Bad or Server) (validate P c) _ _
          (validate-Raises c)
          (λ c' w.
            Failing-weaken (Bad or Server) (Denied or Bad or Server) (λ e b. inr b)
              (in_transaction P (Rows.create_or_save P c') w).0
              (in_transaction-Raises P (Bad or Server) (λ d. inr tt) (inr tt)
                (Rows.create_or_save P c')
                (create_or_save-Raises P c' (normalize-Failing P.urls hosts)) w))
          (λ e why w. inr why))

module _ (P : Platform) where
  -- What a read returns after its checks.
  abbrev Reading : Error → Type 0
  Reading = Denied or Bad or Missing or Server

  lookup : {A : Type 0} (m : Exec P.State A) → Raises (Missing or Server) m → Raises Reading m
  lookup m rm w = Failing-weaken (Missing or Server) Reading (λ e f. inr (inr f)) (m w).0 (rm w)

  find-Raises : (url : String) → Raises Reading (find P url)
  unfolding find find_valid
  find-Raises url = found (validate_url P.urls url)
    where
      found : (o : Option String) → Raises Reading (find_valid P url o)
      found none = lookup (Rows.find_by_url P url) (find_by_url-Raises P url)
      found (some m) = λ w. inr (inl tt)

  pub find_by_url_for_auth-Raises :
      (ctx : P.Context) (url : String) → Raises Reading (find_by_url_for_auth P ctx url)
  unfolding find_by_url_for_auth
  find_by_url_for_auth-Raises ctx url =
      guarded-Raises P Reading ctx _ _ _ (inl tt) (find-Raises url)

  pub find_by_url-Reading :
      (ctx : P.Context) (url : String) → Raises Reading (find_by_url P ctx url)
  unfolding find_by_url
  find_by_url-Reading ctx url =
      guarded-Raises P Reading ctx _ _ _ (inl tt)
        (bind-Raises Reading (find P url) _ (find-Raises url) (λ c w. tt))

  abbrev Showing : Error → Type 0
  Showing = Denied or Missing or Server

  loaded : (id : ℕ) → Raises Showing (Rows.load P id)
  loaded id w =
      Failing-weaken (Missing or Server) Showing (λ e f. inr f) (Rows.load P id w).0
        (load-Raises P id w)

  pub load_for_auth-Raises : (ctx : P.Context) (id : ℕ) → Raises Showing (load_for_auth P ctx id)
  unfolding load_for_auth
  load_for_auth-Raises ctx id = guarded-Raises P Showing ctx _ _ _ (inl tt) (loaded id)

  pub load-Showing : (ctx : P.Context) (id : ℕ) → Raises Showing (load P ctx id)
  unfolding load
  load-Showing ctx id =
      guarded-Raises P Showing ctx _ _ _ (inl tt)
        (bind-Raises Showing (Rows.load P id) _ (loaded id) (λ c w. tt))

  pub delete-Showing : (ctx : P.Context) (id : ℕ) → Raises Showing (delete P ctx id)
  unfolding delete
  delete-Showing ctx id = guarded-Raises P Showing ctx _ _ _ (inl tt) (λ w.
      Failing-weaken (Missing or Server) Showing (λ e f. inr f) (Rows.delete P id w).0
        (delete-Raises P id w))

  abbrev Listing : Error → Type 0
  Listing = Denied or Server

  listed : (t : Option String) → Raises Listing (Rows.list P t)
  listed t w = Failing-weaken Server Listing (λ e f. inr f) (Rows.list P t w).0 (list-Raises P t w)

  pub list-Listing : (ctx : P.Context) (t : Option String) → Raises Listing (list P ctx t)
  unfolding list
  list-Listing ctx t =
      guarded-Raises P Listing ctx _ _ _ (inl tt)
        (bind-Raises Listing (Rows.list P t) _ (listed t) (λ cs w. tt))

  pub list_for_auth-Listing :
      (ctx : P.Context) (t : Option String) → Raises Listing (list_for_auth P ctx t)
  unfolding list_for_auth
  list_for_auth-Listing ctx t = guarded-Raises P Listing ctx _ _ _ (inl tt) (listed t)
