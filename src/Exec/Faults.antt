-- ===== src/Exec/Faults.antt =====
-- Whose fault an error is, by its cause.
use fabric8_cluster.Common.{◌⊎◌}
use fabric8_cluster.Errors.{
  Error, unauthorized, not_found, not_found_msg, bad_parameter, bad_parameter_msg, internal_msg,
  internal, database, text, wrapped,
}

-- The server's, be it the database, a timeout or a row that could not be written.
abbrev pub Server : Error → Type 0
Server (database d) = Unit
Server (text m) = Unit
Server (internal_msg m) = Unit
Server (internal e) = Unit
Server (wrapped e m) = Server e
Server _ = ⊥

-- The input's.
abbrev pub Bad : Error → Type 0
Bad (bad_parameter name value) = Unit
Bad (bad_parameter_msg m) = Unit
Bad (wrapped e m) = Bad e
Bad _ = ⊥

-- There is no such thing.
abbrev pub Missing : Error → Type 0
Missing (not_found entity value) = Unit
Missing (not_found_msg m) = Unit
Missing (wrapped e m) = Missing e
Missing _ = ⊥

-- The caller's.
abbrev pub Denied : Error → Type 0
Denied (unauthorized m) = Unit
Denied (wrapped e m) = Denied e
Denied _ = ⊥

infixr 3 ◌or◌
abbrev pub ◌or◌ : (J K : Error → Type 0) → Error → Type 0
(J or K) e = J e ⊎ K e
