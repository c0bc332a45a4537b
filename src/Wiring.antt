-- ===== src/Wiring.antt =====
-- How the services come to their contexts: NewGormDB and its ClusterService of
-- gormapplication/application.go, NewServiceContext, NewServiceFactory and ClusterService of
-- application/service/factory/service_factory.go, and NewClusterService.
pub mod Contexts
pub mod Isolation
pub mod Requests
use fabric8_cluster.Common.{
  ℕ, suc, Bool, true, false, Option, none, some, List, [], ◌∷◌, if◌then◌else◌, ◌==◌, nat_eq,
}

-- The two functions that make the context of a service: NewGormDB's makes a new one, and
-- NewServiceContext's gives the context at an address, the one it stands in.
pub data Producer : Type 0 where
  new_context : Producer
  this_context : ℕ → Producer

-- `config` is the address of the configuration, which all share.
pub record ServiceFactory : Type 0 where
  pub context_producer : Producer
  pub config : ℕ

-- `Option`: it changes the factory.
abbrev pub FactoryOption : Type 0
FactoryOption = ServiceFactory → ServiceFactory

-- serviceContextImpl. `transactional_repositories` is the address of the transaction.
pub record ServiceContext : Type 0 where
  pub transactional_repositories : Option ℕ
  pub in_transaction : Bool
  pub services : ServiceFactory

-- The contexts by address, and the next free address.
pub record Heap : Type 0 where
  pub next : ℕ
  pub at : ℕ → Option ServiceContext

abbrev pub set_at :
    ℕ → Option ServiceContext → (ℕ → Option ServiceContext) → ℕ → Option ServiceContext
set_at r o at i = if i == r then o else at i

-- clusterService: the address of its context, and the configuration that it loads from.
pub record ClusterService : Type 0 where
  pub context : ℕ
  pub loader : ℕ

-- What is done to contexts: the application or a service asks for a service, ExecuteInTransaction
-- sets the flag and the transaction, and endTransaction resets the flag.
pub data Call : Type 0 where
  ask : Call
  ask_within : ℕ → Call
  enter : (context transaction : ℕ) → Call
  leave : ℕ → Call

-- Inside a transaction ExecuteInTransaction changes nothing.
unfoldable pub entered : ℕ → Option ServiceContext → Option ServiceContext
entered tx none = none
entered tx (some c) =
    if c.in_transaction
    then some c
    else some (record c { in_transaction = true; transactional_repositories = some tx })

unfoldable pub left : Option ServiceContext → Option ServiceContext
left none = none
left (some c) = some (record c { in_transaction = false })

abbrev pub apply_all : List FactoryOption → ServiceFactory → ServiceFactory
apply_all [] f = f
apply_all (opt ∷ options) f = apply_all options (opt f)

module _ (options : List FactoryOption) where
  abbrev pub new_service_factory : Producer → ℕ → ServiceFactory
  new_service_factory producer config =
      apply_all options (record { context_producer = producer; config = config })

  -- `NewServiceContext`: the context's own factory gives this context again.
  unfoldable pub new_service_context : ℕ → Heap → ℕ × Heap
  new_service_context config h = (
    h.next,
    record {
      next = suc h.next;
      at =
          set_at h.next
            (some (record {
              transactional_repositories = none;
              in_transaction = false;
              services = new_service_factory (this_context h.next) config;
            }))
            h.at;
    },
  )

  -- The factory of GormDB.
  abbrev pub new_gorm_db : ℕ → ServiceFactory
  new_gorm_db config = new_service_factory new_context config

  -- `getContext`. `config` is the one that NewGormDB was given.
  unfoldable pub get_context : ℕ → Producer → Heap → ℕ × Heap
  unfolding new_service_context
  get_context config new_context h = new_service_context config h
  get_context config (this_context r) h = (r, h)

  unfoldable pub cluster_service : ℕ → ServiceFactory → Heap → ClusterService × Heap
  unfolding get_context
  cluster_service config f h =
      let (r, h') = get_context config f.context_producer h in
      (record { context = r; loader = f.config }, h')

  abbrev pub asked_within : ℕ → Heap → Option ServiceContext → Heap
  asked_within config h none = h
  asked_within config h (some c) = (cluster_service config c.services h).1

  unfoldable pub act : ℕ → Call → Heap → Heap
  unfolding cluster_service entered left
  act config ask h = (cluster_service config (new_gorm_db config) h).1
  act config (ask_within r) h = asked_within config h (h.at r)
  act config (enter r tx) h = record h { at = set_at r (entered tx (h.at r)) h.at }
  act config (leave r) h = record h { at = set_at r (left (h.at r)) h.at }

  abbrev pub act_all : ℕ → List Call → Heap → Heap
  act_all config [] h = h
  act_all config (c ∷ cs) h = act_all config cs (act config c h)
