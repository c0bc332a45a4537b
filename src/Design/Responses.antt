-- ===== src/Design/Responses.antt =====
-- What the handlers of controller/ answer errors with, against what the design declares.
use fabric8_cluster.Common.{String, ◌≡◌, inl, inr, ◌∙◌}
use fabric8_cluster.Errors.{
  Error, unauthorized, not_found, not_found_msg, bad_parameter, bad_parameter_msg, internal_msg,
  internal, database, text, wrapped, Result, ok, err, DbError,
}
use fabric8_cluster.Exec.{World}
use fabric8_cluster.Exec.Raising.{Failing}
use fabric8_cluster.Exec.Faults.{Server, Bad, Missing, Denied, ◌or◌}
use fabric8_cluster.Controller.Data.{Response, error_response, respond}
use fabric8_cluster.Design.{
  Status, bad_request, unauthorized_status, not_found_status, internal_server_error,
}

-- How `app.JSONErrorResponse` finds the status of an error: by its cause, where an error that
-- fabric8-common has no status for is an internal one.
pub record IsStatus (status : Error → Status) : Type 0 where
  pub unauthorized_is : (m : String) → status (unauthorized m) ≡ unauthorized_status
  pub not_found_is : (x v : String) → status (not_found x v) ≡ not_found_status
  pub not_found_msg_is : (m : String) → status (not_found_msg m) ≡ not_found_status
  pub bad_parameter_is : (x v : String) → status (bad_parameter x v) ≡ bad_request
  pub bad_parameter_msg_is : (m : String) → status (bad_parameter_msg m) ≡ bad_request
  pub internal_msg_is : (m : String) → status (internal_msg m) ≡ internal_server_error
  pub internal_is : (e : Error) → status (internal e) ≡ internal_server_error
  pub database_is : (d : DbError) → status (database d) ≡ internal_server_error
  pub text_is : (m : String) → status (text m) ≡ internal_server_error
  pub wrapped_is : (e : Error) (m : String) → status (wrapped e m) ≡ status e

module _ (status : Error → Status) (K : IsStatus status) where
  pub Server-status : (e : Error) → Server e → status e ≡ internal_server_error
  Server-status (database d) s = K.database_is d
  Server-status (text m) s = K.text_is m
  Server-status (internal_msg m) s = K.internal_msg_is m
  Server-status (internal e) s = K.internal_is e
  Server-status (wrapped e m) s = K.wrapped_is e m ∙ Server-status e s
  Server-status _ s = absurd s

  pub Bad-status : (e : Error) → Bad e → status e ≡ bad_request
  Bad-status (bad_parameter x v) s = K.bad_parameter_is x v
  Bad-status (bad_parameter_msg m) s = K.bad_parameter_msg_is m
  Bad-status (wrapped e m) s = K.wrapped_is e m ∙ Bad-status e s
  Bad-status _ s = absurd s

  pub Missing-status : (e : Error) → Missing e → status e ≡ not_found_status
  Missing-status (not_found x v) s = K.not_found_is x v
  Missing-status (not_found_msg m) s = K.not_found_msg_is m
  Missing-status (wrapped e m) s = K.wrapped_is e m ∙ Missing-status e s
  Missing-status _ s = absurd s

  pub Denied-status : (e : Error) → Denied e → status e ≡ unauthorized_status
  Denied-status (unauthorized m) s = K.unauthorized_is m
  Denied-status (wrapped e m) s = K.wrapped_is e m ∙ Denied-status e s
  Denied-status _ s = absurd s

-- Every error is someone's fault.
pub every : (e : Error) → (Denied or Bad or Missing or Server) e
every (unauthorized m) = inl tt
every (bad_parameter x v) = inr (inl tt)
every (bad_parameter_msg m) = inr (inl tt)
every (not_found x v) = inr (inr (inl tt))
every (not_found_msg m) = inr (inr (inl tt))
every (internal_msg m) = inr (inr (inr tt))
every (internal e) = inr (inr (inr tt))
every (database d) = inr (inr (inr tt))
every (text m) = inr (inr (inr tt))
every (wrapped e m) = every e

-- If the answer is an error, it is one of `J`.
abbrev pub Answered : {A : Type 0} → (Error → Type 0) → Response A → Type 0
Answered J (error_response e) = J e
Answered J _ = Unit

pub respond-Answered :
    {A B S : Type 0} (I J : Error → Type 0) (f : A → Response B) (g : Error → Response B)
    (q : Result A × World S)
    → Failing I q.0
    → ((a : A) → Answered J (f a))
    → ((e : Error) → I e → Answered J (g e))
    → Answered J (respond f g q).0
respond-Answered I J f g (ok a, w) i ok_f err_g = ok_f a
respond-Answered I J f g (err e, w) i ok_f err_g = err_g e i
