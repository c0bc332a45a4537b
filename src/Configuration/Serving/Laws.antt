-- ===== src/Configuration/Serving/Laws.antt =====
-- Which handlers stand where.
use fabric8_cluster.Common.{
  String, ◌≡◌, ◌↔◌, ◌⊎◌, inl, inr, ◌==◌, string_eq, Bool-cases, Among, arith,
}
use fabric8_cluster.Configuration.Viper.{Viper}
use fabric8_cluster.Configuration.Getters.{get_http_address, get_metrics_http_address}
use fabric8_cluster.Configuration.Serving.{handlers, listeners}

module _ (V : Viper) (v : V.State) where
  abbrev pub Standing : (address path : String) → Type 0
  Standing address path =
      ((path ≡ "/metrics") × (address ≡ get_metrics_http_address V v))
      ⊎ (((path ≡ "/api/") ⊎ (path ≡ "/favicon.ico")) × (address ≡ get_http_address V v))

  -- The metrics stand at their address, everything else at that of the service, and both addresses
  -- are listened on.
  pub handlers_iff :
      (address path : String)
      → (Among (address, path) (handlers V v) ↔ Standing address path)
        × (Standing address path → Among address (listeners V v))
  unfolding handlers listeners
  handlers_iff address path =
      elim (Bool-cases (get_http_address V v == get_metrics_http_address V v)) [
        | inl same ↦ rw same ((ground arith, ground arith), ground (arith, same))
        | inr other ↦ rw other ((ground arith, ground arith), ground (arith, other))
      ]
