-- ===== src/Platform/Memory.antt =====
-- A platform in memory, which shows that the assumptions can be met and on which the theorems are
-- run. The database is the log of its changes, newest first; the tables are read off the log, under
-- the constraints of migration/sql-files. The context of a request is the account of its caller.
pub mod Rows
pub mod Statements
pub mod Laws
pub mod Working
pub mod Texts
use fabric8_cluster.Common.{
  ℕ, suc, String, Bool, true, false, ◌||◌, List, [], ◌∷◌, ◌≡◌, ◌≢◌, inl, inr, refl, arith, subst,
  Among, Bool-cases, ◌==◌, nat_eq,
}
use fabric8_cluster.Errors.{Error}
use fabric8_cluster.Model.{nil_uuid}
use fabric8_cluster.Platform
use Platform.{
  Platform, Account, auth, oso_proxy, tenant, jenkins_idler, jenkins_proxy, tool_chain_operator,
}
use Statements.{database}
use Laws.{reading, writing, constrained, listing, transactional}
use Texts.{web, web-IsLawful}

abbrev rank : Account → ℕ
rank auth = 0
rank oso_proxy = 1
rank tenant = 2
rank jenkins_idler = 3
rank jenkins_proxy = 4
rank tool_chain_operator = 5

abbrev pub is_account : Account → List Account → Bool
is_account a [] = false
is_account a (b ∷ bs) = (rank a == rank b) || is_account a bs

abbrev pub memory : Platform
memory = record {
  urls = web;
  db = database;
  Context = Account;
  is_specific_service_account = is_account;
  new_v4 = suc;
  uuid_string = λ i. "uuid";
  error_text = λ e. "error";
}

among :
    (ctx : Account) (names : List Account)
    → is_account ctx names ≡ true
    → (a : Account) × Among a names × (is_account ctx (a ∷ []) ≡ true)
among ctx [] e = absurd (cc)
among ctx (b ∷ bs) e = elim (Bool-cases (rank ctx == rank b)) [
  | inl h ↦ (b, inl refl, ground (arith, h))
  | inr h ↦ let (a, m, k) = among ctx bs (ground (arith, h, e)) in (a, inr m, k)
]

named :
    (ctx : Account) (names : List Account) (a : Account)
    → Among a names
    → is_account ctx (a ∷ []) ≡ true
    → is_account ctx names ≡ true
named ctx [] a m e = absurd m
named ctx (b ∷ bs) a (inl same) e =
    subst (λ x. is_account ctx (x ∷ bs) ≡ true) same (ground (arith, e))
named ctx (b ∷ bs) a (inr m) e = ground (arith, named ctx bs a m e, Bool-cases (rank ctx == rank b))

pub memory-IsLawful : Platform.IsLawful memory
memory-IsLawful = record {
  urls = web-IsLawful;
  reading = reading;
  writing = writing;
  constrained = constrained;
  listing = listing;
  transactional = transactional;
  account_among = among;
  account_named = named;
  new_v4-ne-nil = λ n e. ground arith;
}
