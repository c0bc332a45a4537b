-- ===== src/Service/Sync/Pending.antt =====
-- The list of clusters to delete, while the configuration is gone through.
use fabric8_cluster.Common.{
  String, ◌≡◌, ◌⊎◌, inl, inr, refl, List, [], ◌∷◌, arith, Among, Bool, false, Bool-cases,
}
use fabric8_cluster.Common.{◌==◌, string_eq}
use fabric8_cluster.Model.{Cluster}
use fabric8_cluster.Platform.{Platform}
use fabric8_cluster.Platform.Tables.{Distinct}
use fabric8_cluster.Service.Sync.{keep_url}

module _ (P : Platform) (url : String) where
  abbrev Matches : Cluster → Type 0
  Matches d = P.urls.add_trailing_slash d.url ≡ P.urls.add_trailing_slash url

  abbrev matches : Cluster → Bool
  matches d = P.urls.add_trailing_slash d.url == P.urls.add_trailing_slash url

  pub Among-keep_url : (d : Cluster) (cs : List Cluster) → Among d (keep_url P url cs) → Among d cs
  unfolding keep_url
  Among-keep_url d [] m = m
  Among-keep_url d (c ∷ cs) m = ground (arith, Among-keep_url d cs)

  pub keep_url-Among :
      (d : Cluster) (cs : List Cluster) → Among d cs → ¬ Matches d → Among d (keep_url P url cs)
  unfolding keep_url
  keep_url-Among d [] m differs = elim m [ ]
  keep_url-Among d (c ∷ cs) m differs = ground (arith, keep_url-Among d cs)

  pub keep_url-Distinct : (cs : List Cluster) → Distinct cs → Distinct (keep_url P url cs)
  unfolding keep_url
  keep_url-Distinct [] u = tt
  keep_url-Distinct (c ∷ cs) u = elim (Bool-cases (matches c)) [
    | inl hit ↦ rw hit u.1
    | inr miss ↦ rw miss ((λ d m. u.0 d (Among-keep_url d cs m)), keep_url-Distinct cs u.1)
  ]

  -- No cluster with the url is left, if no two have the same url.
  pub keep_url-differs :
      (d : Cluster) (cs : List Cluster)
      → Distinct cs
      → ((c e : Cluster)
          → Among c cs
          → Among e cs
          → Matches c
          → Matches e
          → c.cluster_id ≡ e.cluster_id)
      → Among d (keep_url P url cs)
      → ¬ Matches d
  unfolding keep_url
  keep_url-differs d [] u same m e = absurd m
  keep_url-differs d (c ∷ cs) u same m e = elim (Bool-cases (matches c)) [
    | inl hit ↦
        let later : Among d cs = ground arith in
        u.0 d later (same c d (inl refl) (inr later) (ground arith) e)
    | inr miss ↦ elim (rest miss) [
      | inl first ↦ ground arith
      | inr later ↦ keep_url-differs d cs u.1 (λ a b ma mb. same a b (inr ma) (inr mb)) later e
    ]
  ]
    where
      rest : matches c ≡ false → (d ≡ c) ⊎ Among d (keep_url P url cs)
      rest miss = rw miss at m
