-- ===== src/Wiring/Contexts.antt =====
-- No request sees the transaction of another.
use fabric8_cluster.Common.{
  ℕ, suc, ◌≤◌, ◌<◌, Option, none, some, List, [], ◌∷◌, ◌≡◌, refl, ap, ◌∙◌, inl, inr, arith, ◌==◌,
  nat_eq, Bool-cases, Option-cases,
}
use fabric8_cluster.Wiring.{
  Producer, new_context, this_context, ServiceFactory, FactoryOption, ServiceContext, Heap, Call,
  ask, ask_within, enter, leave, entered, left, apply_all, new_service_factory, new_service_context,
  new_gorm_db, get_context, cluster_service, asked_within, act, act_all, set_at,
}

-- The options leave it to the factory where its contexts come from.
abbrev pub Keep : List FactoryOption → Type 0
Keep [] = Unit
Keep (opt ∷ options) =
    ((f : ServiceFactory) → (opt f).context_producer ≡ f.context_producer) × Keep options

pub apply_all-producer :
    (options : List FactoryOption)
    → Keep options
    → (f : ServiceFactory) → (apply_all options f).context_producer ≡ f.context_producer
apply_all-producer [] k f = refl
apply_all-producer (opt ∷ options) (k, ks) f = apply_all-producer options ks (opt f) ∙ k f

-- No address from `next` on is in use, and the factory of each context gives this context.
pub record IsWired (h : Heap) : Type 0 where
  pub bounded : (r : ℕ) → h.next ≤ r → h.at r ≡ none
  pub own :
      (r : ℕ) (c : ServiceContext) → h.at r ≡ some c → c.services.context_producer ≡ this_context r

-- The context at `r` is `o` from now on.
set_at-IsWired :
    (h : Heap)
    → IsWired h
    → (n r : ℕ) (o : Option ServiceContext) → h.next ≤ n
    → ((c : ServiceContext) → o ≡ some c → (r < n) × (c.services.context_producer ≡ this_context r))
    → IsWired (record { next = n; at = set_at r o h.at })
set_at-IsWired h W n r o more good = record {
  bounded = λ i free. elim (Option-cases o) [
    | inl gone ↦ ground (arith, gone, W.bounded i)
    | inr (c, there) ↦ let (less, _) = good c there in ground (arith, less, W.bounded i)
  ];
  own = λ i c there. elim (Bool-cases (i == r)) [
    | inl same ↦
        let (_, producer) = good c (ground (arith, there, same)) in ground (arith, producer, same)
    | inr other ↦ W.own i c (ground (arith, there, other))
  ];
}

entered_same :
    (tx : ℕ) (o : Option ServiceContext) (c : ServiceContext)
    → entered tx o ≡ some c
    → (d : ServiceContext) × (o ≡ some d) × (c.services ≡ d.services)
unfolding entered
entered_same tx none c e = absurd (cc)
entered_same tx (some d) c e = (d, refl, ground arith)

left_same :
    (o : Option ServiceContext) (c : ServiceContext)
    → left o ≡ some c
    → (d : ServiceContext) × (o ≡ some d) × (c.services ≡ d.services)
unfolding left
left_same none c e = absurd (cc)
left_same (some d) c e = (d, refl, ground arith)

module _ (options : List FactoryOption) (K : Keep options) (config : ℕ) where
  new_service_context-IsWired :
      (h : Heap) → IsWired h → IsWired (new_service_context options config h).1
  unfolding new_service_context
  new_service_context-IsWired h W = set_at-IsWired h W (suc h.next) h.next _ (omega arith) (λ c e.
      let producer =
        apply_all-producer options K
          (record { context_producer = this_context h.next; config = config }) in
      let services : c.services ≡ new_service_factory options (this_context h.next) config =
        ground arith in
      (omega arith, ap (λ f. f.context_producer) services ∙ producer))

  get_context-IsWired :
      (p : Producer) (h : Heap) → IsWired h → IsWired (get_context options config p h).1
  unfolding get_context
  get_context-IsWired new_context h W = new_service_context-IsWired h W
  get_context-IsWired (this_context r) h W = W

  cluster_service-IsWired :
      (f : ServiceFactory) (h : Heap) → IsWired h → IsWired (cluster_service options config f h).1
  unfolding cluster_service
  cluster_service-IsWired f h W = get_context-IsWired f.context_producer h W

  -- Contexts that exist stay where they are.
  used : (h : Heap) (r : ℕ) (c : ServiceContext) → IsWired h → h.at r ≡ some c → r < h.next
  used h r c W there = ground (arith, W.bounded r)

  changed-IsWired :
      (h : Heap) (r : ℕ) (o : Option ServiceContext)
      → IsWired h
      → ((c : ServiceContext)
          → o ≡ some c
          → (d : ServiceContext) × (h.at r ≡ some d) × (c.services ≡ d.services))
      → IsWired (record h { at = set_at r o h.at })
  changed-IsWired h r o W same = set_at-IsWired h W h.next r o (omega arith) (λ c e.
      let (d, there, services) = same c e in
      (used h r d W there, ap (λ f. f.context_producer) services ∙ W.own r d there))

  asked_within-IsWired :
      (h : Heap) (o : Option ServiceContext) → IsWired h → IsWired (asked_within options config h o)
  asked_within-IsWired h none W = W
  asked_within-IsWired h (some c) W = cluster_service-IsWired c.services h W

  act-IsWired : (c : Call) (h : Heap) → IsWired h → IsWired (act options config c h)
  unfolding act
  act-IsWired ask h W = cluster_service-IsWired (new_gorm_db options config) h W
  act-IsWired (ask_within r) h W = asked_within-IsWired h (h.at r) W
  act-IsWired (enter r tx) h W =
      changed-IsWired h r (entered tx (h.at r)) W (entered_same tx (h.at r))
  act-IsWired (leave r) h W = changed-IsWired h r (left (h.at r)) W (left_same (h.at r))

  pub act_all-IsWired :
      (cs : List Call) (h : Heap) → IsWired h → IsWired (act_all options config cs h)
  act_all-IsWired [] h W = W
  act_all-IsWired (c ∷ cs) h W = act_all-IsWired cs (act options config c h) (act-IsWired c h W)
