-- ===== src/Wiring/Isolation.antt =====
-- What is done to other contexts, and in which order, does not matter to a context.
use fabric8_cluster.Common.{ℕ, ◌≤◌, List, ◌≡◌, nat_eq}
use fabric8_cluster.Wiring.{FactoryOption, Heap}

module _ (options : List FactoryOption) (config r : ℕ) where
  -- The context at `r` is as it was, and still in use.
  Spared : (h h' : Heap) → Type 0
  Spared h h' = (h'.at r ≡ h.at r) × (h.next ≤ h'.next)
