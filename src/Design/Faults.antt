-- ===== src/Design/Faults.antt =====
-- By whose fault each handler of controller/ fails.
use fabric8_cluster.Common.{
  ℕ, String, Bool, true, false, Option, none, some, List, [], ◌≡◌, inl, inr, subst, if◌then◌else◌,
}
use fabric8_cluster.Errors.{Error, ok, err, is_not_found}
use fabric8_cluster.Platform.{Platform}
use fabric8_cluster.Exec.{World}
use fabric8_cluster.Exec.Raising.{Failing}
use fabric8_cluster.Exec.Faults.{Server, Bad, Missing, Denied, ◌or◌}
use fabric8_cluster.Repository.Clusters.Raising.{Missing-found}
use fabric8_cluster.Repository.Identities as Identities
use fabric8_cluster.Repository.Identities.Raising.{list_clusters_for_identity-Raises}
use fabric8_cluster.Service.Clusters as Service
use fabric8_cluster.Service.Raising.{
  create_or_save_cluster-Raises, find_by_url_for_auth-Raises, find_by_url-Reading,
  load_for_auth-Raises, load-Showing, delete-Showing, list-Listing, list_for_auth-Listing,
}
use fabric8_cluster.Controller.Data.{
  Response, replied, created, no_content, service_unavailable, error_response, payload_cluster,
}
use fabric8_cluster.Controller.Clusters
use fabric8_cluster.Controller.Users
use fabric8_cluster.System.{Request}
use fabric8_cluster.Design.{
  Action, list_action, list_for_auth_client_action, show_action, show_for_auth_client_action,
  create_action, delete_action, link_identity_to_cluster_action,
  remove_identity_to_cluster_link_action, clusters_action,
}
use fabric8_cluster.Design.Responses.{every, Answered, respond-Answered}

-- The error that an answer carries.
abbrev pub error_of : {A : Type 0} → Response A → Option Error
error_of (error_response e) = some e
error_of _ = none

Answered-error :
    {A : Type 0} (J : Error → Type 0) (r : Response A) (e : Error)
    → Answered J r
    → error_of r ≡ some e
    → J e
Answered-error J (error_response x) e a h = subst J (cc) a
Answered-error J (replied x) e a h = absurd (cc)
Answered-error J (created l) e a h = absurd (cc)
Answered-error J no_content e a h = absurd (cc)
Answered-error J (service_unavailable x) e a h = absurd (cc)

module _ (P : Platform) where
  abbrev pub action_of : Request P → Action
  action_of (Request.list ctx url type) = list_action
  action_of (Request.list_for_auth_client ctx url type) = list_for_auth_client_action
  action_of (Request.show ctx id) = show_action
  action_of (Request.show_for_auth_client ctx id) = show_for_auth_client_action
  action_of (Request.create ctx p) = create_action
  action_of (Request.delete ctx id) = delete_action
  action_of (Request.link_identity_to_cluster ctx x url ignore) = link_identity_to_cluster_action
  action_of (Request.remove_identity_to_cluster_link ctx x url) =
      remove_identity_to_cluster_link_action
  action_of (Request.clusters located) = clusters_action

  -- `LocateIdentity` fails only where the caller has no valid token.
  abbrev pub IsLocated : Request P → Type 0
  IsLocated (Request.clusters (err e)) = Denied e
  IsLocated _ = Unit

  module _ (href : String → String) (parse_uuid : String → ℕ × Bool) where
    -- The error that the handler of a request answers with, if it does.
    unfoldable pub error_answered : Request P → World P.State → Option Error
    error_answered (Request.list ctx url type) w = error_of (Clusters.list P ctx url type w).0
    error_answered (Request.list_for_auth_client ctx url type) w =
        error_of (Clusters.list_for_auth_client P ctx url type w).0
    error_answered (Request.show ctx id) w = error_of (Clusters.show P ctx id w).0
    error_answered (Request.show_for_auth_client ctx id) w =
        error_of (Clusters.show_for_auth_client P ctx id w).0
    error_answered (Request.create ctx p) w = error_of (Clusters.create P href ctx p w).0
    error_answered (Request.delete ctx id) w = error_of (Clusters.delete P ctx id w).0
    error_answered (Request.link_identity_to_cluster ctx x url ignore) w =
        error_of (Clusters.link_identity_to_cluster P parse_uuid ctx x url ignore w).0
    error_answered (Request.remove_identity_to_cluster_link ctx x url) w =
        error_of (Clusters.remove_identity_to_cluster_link P parse_uuid ctx x url w).0
    error_answered (Request.clusters located) w = error_of (Users.clusters P located w).0

module _ (P : Platform)
    (hosts : (h prefix : String) → Failing Bad (P.urls.replace_domain_prefix h prefix)) where
  -- By whose fault a handler may fail.
  abbrev pub Fault : Request P → Error → Type 0
  Fault (Request.list ctx url type) = Denied or Bad or Server
  Fault (Request.list_for_auth_client ctx url type) = Denied or Bad or Server
  Fault (Request.show ctx id) = Denied or Missing or Server
  Fault (Request.show_for_auth_client ctx id) = Denied or Missing or Server
  Fault (Request.create ctx p) = Denied or Bad or Server
  Fault (Request.delete ctx id) = Denied or Missing or Server
  Fault (Request.clusters located) = Denied or Server
  Fault _ = Denied or Bad or Missing or Server

  empty_or :
      (A : Type 0) (K : Error → Type 0) (b : Bool) (e : Error)
      → K e
      → Answered {A = List A} K (if b then replied [] else error_response e)
  empty_or A K true e k = tt
  empty_or A K false e k = k

  -- An empty list stands for what was not found.
  none_found-Answered :
      (A : Type 0) (e : Error)
      → (Denied or Bad or Missing or Server) e
      → Answered {A = List A}
          (Denied or Bad or Server)
          (if is_not_found e then replied [] else error_response e)
  none_found-Answered A e (inl d) = empty_or A (Denied or Bad or Server) (is_not_found e) e (inl d)
  none_found-Answered A e (inr (inl b)) =
      empty_or A (Denied or Bad or Server) (is_not_found e) e (inr (inl b))
  none_found-Answered A e (inr (inr (inl m))) = rw (Missing-found e m) tt
  none_found-Answered A e (inr (inr (inr s))) =
      empty_or A (Denied or Bad or Server) (is_not_found e) e (inr (inr s))

  -- Without a URL the clusters are listed.
  listing : (e : Error) → (Denied or Server) e → (Denied or Bad or Server) e
  listing e (inl d) = inl d
  listing e (inr s) = inr (inr s)

  module _ (href : String → String) (parse_uuid : String → ℕ × Bool) where
    pub request-Fault :
        (q : Request P) (w : World P.State) (e : Error)
        → IsLocated P q
        → error_answered P href parse_uuid q w ≡ some e
        → Fault q e
    unfolding error_answered Clusters.list Clusters.list_for_auth_client Clusters.show
        Clusters.show_for_auth_client Clusters.create Clusters.delete Users.clusters
    request-Fault (Request.list ctx (some url) type) w e located h =
        Answered-error (Denied or Bad or Server) _ e
          (respond-Answered (Denied or Bad or Missing or Server) (Denied or Bad or Server) _ _
            (Service.find_by_url P ctx url w) (find_by_url-Reading P ctx url w) (λ c. tt)
            (none_found-Answered _))
          h
    request-Fault (Request.list ctx none type) w e located h =
        Answered-error (Denied or Bad or Server) _ e
          (respond-Answered (Denied or Server) (Denied or Bad or Server) _ _
            (Service.list P ctx type w) (list-Listing P ctx type w) (λ c. tt) listing)
          h
    request-Fault (Request.list_for_auth_client ctx (some url) type) w e located h =
        Answered-error (Denied or Bad or Server) _ e
          (respond-Answered (Denied or Bad or Missing or Server) (Denied or Bad or Server) _ _
            (Service.find_by_url_for_auth P ctx url w) (find_by_url_for_auth-Raises P ctx url w)
            (λ c. tt) (none_found-Answered _))
          h
    request-Fault (Request.list_for_auth_client ctx none type) w e located h =
        Answered-error (Denied or Bad or Server) _ e
          (respond-Answered (Denied or Server) (Denied or Bad or Server) _ _
            (Service.list_for_auth P ctx type w) (list_for_auth-Listing P ctx type w) (λ c. tt)
            listing)
          h
    request-Fault (Request.show ctx id) w e located h =
        Answered-error (Denied or Missing or Server) _ e
          (respond-Answered (Denied or Missing or Server) (Denied or Missing or Server) _ _
            (Service.load P ctx id w) (load-Showing P ctx id w) (λ c. tt) (λ e f. f))
          h
    request-Fault (Request.show_for_auth_client ctx id) w e located h =
        Answered-error (Denied or Missing or Server) _ e
          (respond-Answered (Denied or Missing or Server) (Denied or Missing or Server) _ _
            (Service.load_for_auth P ctx id w) (load_for_auth-Raises P ctx id w) (λ c. tt)
            (λ e f. f))
          h
    request-Fault (Request.create ctx p) w e located h =
        Answered-error (Denied or Bad or Server) _ e
          (respond-Answered (Denied or Bad or Server) (Denied or Bad or Server) _ _
            (Service.create_or_save_cluster P ctx (payload_cluster p) w)
            (create_or_save_cluster-Raises P hosts ctx (payload_cluster p) w) (λ c. tt) (λ e f. f))
          h
    request-Fault (Request.delete ctx id) w e located h =
        Answered-error (Denied or Missing or Server) _ e
          (respond-Answered (Denied or Missing or Server) (Denied or Missing or Server) _ _
            (Service.delete P ctx id w) (delete-Showing P ctx id w) (λ c. tt) (λ e f. f))
          h
    request-Fault (Request.link_identity_to_cluster ctx x url ignore) w e located h = every e
    request-Fault (Request.remove_identity_to_cluster_link ctx x url) w e located h = every e
    request-Fault (Request.clusters (err x)) w e located h =
        let f : (Denied or Server) x = inl located in
        let same : x ≡ e = cc in subst (Denied or Server) same f
    request-Fault (Request.clusters (ok id)) w e located h =
        Answered-error (Denied or Server) _ e
          (respond-Answered Server (Denied or Server) _ _
            (Identities.list_clusters_for_identity P id w)
            (list_clusters_for_identity-Raises P id w) (λ c. tt) (λ e f. inr f))
          h
