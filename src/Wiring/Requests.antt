-- ===== src/Wiring/Requests.antt =====
-- What a request gets, and what other requests do to it.
use fabric8_cluster.Common.{
  ℕ, false, none, some, List, [], ◌∷◌, ◌≡◌, ◌≢◌, refl, sym, ap, subst, arith, if◌then◌else◌, ◌==◌,
  nat_eq,
}
use fabric8_cluster.Wiring.{
  new_context, this_context, ServiceFactory, FactoryOption, ServiceContext, Heap, Call, ask,
  ask_within, enter, leave, ClusterService, new_service_factory, new_service_context, new_gorm_db,
  get_context, cluster_service, act_all,
}
use fabric8_cluster.Wiring.Contexts.{Keep, IsWired, act_all-IsWired, apply_all-producer}

abbrev pub no_contexts : Heap
no_contexts = record { next = 0; at = λ r. none }

no_contexts-IsWired : IsWired no_contexts
no_contexts-IsWired = record { bounded = λ r more. refl; own = λ r c there. absurd (cc) }

-- The calls that change the context at `r`.
unfoldable pub only : ℕ → List Call → List Call
only r [] = []
only r (ask ∷ cs) = only r cs
only r (ask_within x ∷ cs) = only r cs
only r (enter x tx ∷ cs) = let rest = only r cs in if x == r then enter x tx ∷ rest else rest
only r (leave x ∷ cs) = let rest = only r cs in if x == r then leave x ∷ rest else rest

module _ (options : List FactoryOption) (K : Keep options) (config : ℕ) where
  -- The service of a request: its context is new and outside of transactions, the others are as
  -- they were, and the services it asks for have the same context.
  pub record IsFresh (h : Heap) (s : ClusterService) (h' : Heap) : Type 0 where
    pub new : h.at s.context ≡ none
    pub context : ServiceContext
    pub there : h'.at s.context ≡ some context
    pub idle : context.in_transaction ≡ false
    pub others : (r : ℕ) → r ≢ s.context → h'.at r ≡ h.at r
    pub shared : (cluster_service options config context.services h').0.context ≡ s.context
    pub unchanged : (cluster_service options config context.services h').1 ≡ h'

  within :
      (f : ServiceFactory) (r : ℕ) (h : Heap)
      → f.context_producer ≡ this_context r
      → ((cluster_service options config f h).0.context ≡ r)
        × ((cluster_service options config f h).1 ≡ h)
  unfolding cluster_service get_context
  within f r h own = (
    ap (λ p. (get_context options config p h).0) own,
    ap (λ p. (get_context options config p h).1) own,
  )

  module _ (h : Heap) where
    made : Heap
    made = (new_service_context options config h).1

    -- The service that the factory of GormDB gives.
    asked : ClusterService × Heap
    unfolding made
    asked = (record { context = h.next; loader = (new_gorm_db options config).config }, made)

    from_app : cluster_service options config (new_gorm_db options config) h ≡ asked
    unfolding cluster_service get_context asked made
    from_app =
        let producer =
          apply_all-producer options K
            (record { context_producer = new_context; config = config }) in
        ap
          (λ p.
            let (r, h') = get_context options config p h in
            (record { context = r; loader = (new_gorm_db options config).config }, h'))
          producer

    asked-IsFresh : IsWired h → IsFresh h asked.0 asked.1
    unfolding asked made new_service_context
    asked-IsFresh W =
        let own =
          apply_all-producer options K
            (record { context_producer = this_context h.next; config = config }) in
        record {
          new = W.bounded h.next (omega arith);
          context = record {
            transactional_repositories = none;
            in_transaction = false;
            services = new_service_factory options (this_context h.next) config;
          };
          there = ground arith;
          idle = refl;
          others = λ r differs. ground arith;
          shared = (within _ h.next made own).0;
          unchanged = (within _ h.next made own).1;
        }

  -- If the options of the factory leave it where its contexts come from: whatever services the
  -- application and the services themselves have asked for, and whatever transactions have begun
  -- and ended, the next service that the application asks for has a context that is new and outside
  -- of transactions; all other contexts stay as they are, and the services that it asks for itself
  -- have the same context.
  pub ask-IsFresh :
      (cs : List Call)
      → let h = act_all options config cs no_contexts in
        let (s, h') = cluster_service options config (new_gorm_db options config) h in
        IsFresh h s h'
  ask-IsFresh cs =
      let h = act_all options config cs no_contexts in
      let W = act_all-IsWired options K config cs no_contexts no_contexts-IsWired in
      subst (λ q. IsFresh h q.0 q.1) (sym (from_app h)) (asked-IsFresh h W)
