-- ===== src/Design/Answers.antt =====
-- No handler of controller/ answers with an error whose status its action does not declare.
use fabric8_cluster.Common.{ℕ, String, Bool, some, ◌≡◌, ◌⊎◌, inl, inr, Among, arith}
use fabric8_cluster.Errors.{Error}
use fabric8_cluster.Platform.{Platform}
use fabric8_cluster.Exec.{World}
use fabric8_cluster.Exec.Raising.{Failing}
use fabric8_cluster.Exec.Faults.{Server, Bad, Missing, Denied, ◌or◌}
use fabric8_cluster.System.{Request}
use fabric8_cluster.Design.{
  Status, bad_request, unauthorized_status, not_found_status, internal_server_error, Action,
}
use fabric8_cluster.Design.Responses.{
  IsStatus, Server-status, Bad-status, Missing-status, Denied-status,
}
use fabric8_cluster.Design.Faults.{error_answered, action_of, IsLocated, Fault, request-Fault}

module _ (P : Platform)
    (hosts : (h prefix : String) → Failing Bad (P.urls.replace_domain_prefix h prefix))
    (href : String → String) (parse_uuid : String → ℕ × Bool) (status : Error → Status)
    (K : IsStatus status) where
  abbrev Declares : Action → Error → Type 0
  Declares a e = Among (status e) a.responses

  input_status :
      (e : Error)
      → (Denied or Bad or Server) e
      → (status e ≡ unauthorized_status)
        ⊎ ((status e ≡ bad_request) ⊎ (status e ≡ internal_server_error))
  input_status e (inl d) = inl (Denied-status status K e d)
  input_status e (inr (inl b)) = inr (inl (Bad-status status K e b))
  input_status e (inr (inr s)) = inr (inr (Server-status status K e s))

  lookup_status :
      (e : Error)
      → (Denied or Missing or Server) e
      → (status e ≡ unauthorized_status)
        ⊎ ((status e ≡ not_found_status) ⊎ (status e ≡ internal_server_error))
  lookup_status e (inl d) = inl (Denied-status status K e d)
  lookup_status e (inr (inl m)) = inr (inl (Missing-status status K e m))
  lookup_status e (inr (inr s)) = inr (inr (Server-status status K e s))

  any_status :
      (e : Error)
      → (Denied or Bad or Missing or Server) e
      → (status e ≡ bad_request)
        ⊎ ((status e ≡ unauthorized_status)
            ⊎ ((status e ≡ not_found_status) ⊎ (status e ≡ internal_server_error)))
  any_status e (inl d) = inr (inl (Denied-status status K e d))
  any_status e (inr (inl b)) = inl (Bad-status status K e b)
  any_status e (inr (inr (inl m))) = inr (inr (inl (Missing-status status K e m)))
  any_status e (inr (inr (inr s))) = inr (inr (inr (Server-status status K e s)))

  user_status :
      (e : Error)
      → (Denied or Server) e
      → (status e ≡ unauthorized_status) ⊎ (status e ≡ internal_server_error)
  user_status e (inl d) = inl (Denied-status status K e d)
  user_status e (inr s) = inr (Server-status status K e s)

  -- The faults of an action have declared statuses.
  declared : (q : Request P) (e : Error) → Fault P hosts q e → Declares (action_of P q) e
  declared (Request.list ctx url type) e f = let h = input_status e f in ground arith
  declared (Request.list_for_auth_client ctx url type) e f =
      let h = input_status e f in ground arith
  declared (Request.show ctx id) e f = let h = lookup_status e f in ground arith
  declared (Request.show_for_auth_client ctx id) e f = let h = lookup_status e f in ground arith
  declared (Request.create ctx p) e f = let h = input_status e f in ground arith
  declared (Request.delete ctx id) e f = let h = lookup_status e f in ground arith
  declared (Request.link_identity_to_cluster ctx x url ignore) e f =
      let h = any_status e f in ground arith
  declared (Request.remove_identity_to_cluster_link ctx x url) e f =
      let h = any_status e f in ground arith
  declared (Request.clusters located) e f = let h = user_status e f in ground arith

  -- If the status of an error is that of its cause as documented, a host without a domain is
  -- refused as a bad parameter, and LocateIdentity fails only where the caller is not authorized:
  -- whenever the handler of a request answers with an error, in whatever state of the database, the
  -- design of its action declares a response with the error's status.
  pub error_answered-declared :
      (q : Request P) (w : World P.State) (e : Error)
      → IsLocated P q
      → error_answered P href parse_uuid q w ≡ some e
      → Among (status e) (action_of P q).responses
  error_answered-declared q w e located h =
      declared q e (request-Fault P hosts href parse_uuid q w e located h)
