-- ===== src/Tests/Running.antt =====
-- The running service at concrete requests and events.
use fabric8_cluster.Common.{
  ℕ, String, Bool, ◌≡◌, ◌==◌, refl, some, none, true, false, List, [], ◌∷◌, inl, inr, arith, subst,
  Bool-cases, nat_eq, string_eq,
}
use fabric8_cluster.Model.{Cluster}
use fabric8_cluster.Platform.{auth, tenant, tool_chain_operator}
use fabric8_cluster.Platform.Memory.{memory, memory-IsLawful}
use fabric8_cluster.Platform.Memory.Laws.{reliable}
use fabric8_cluster.Service.Invariant.{IsSound}
use fabric8_cluster.Service.Watcher.{Shared, changed, handle_event}
use fabric8_cluster.System.{show, served, notified, here, next, serve}
use fabric8_cluster.System.Safety.{IsSafe, Reach-IsSafe}
use fabric8_cluster.Service.Catalogue.{
  Catalogue, put, Call, save, drop, look_up, link, unlink, Allowed, trace,
}
use fabric8_cluster.Service.Catalogue.Rows.{Represents}
use fabric8_cluster.Service.Catalogue.Refinement.{trace-Allowed}
use fabric8_cluster.Service.Catalogue.Stability.{after, after-Same}
use fabric8_cluster.Tests.Data.{east, east_row, world, empty_log, east_log}
use fabric8_cluster.Tests.Syncing.{both_world, both-IsClean, east-IsClean}
use fabric8_cluster.Tests.Configured.{files, filled}

abbrev parse : String → ℕ × Bool
parse s = (7, true)

abbrev running : Shared memory
running = record {
  config = record filled { cluster_config_file_path = "/etc/oso-clusters.conf" };
  world = both_world;
}

running-IsSafe : IsSafe memory running
running-IsSafe = record { sound = record { clean = both-IsClean; idle = refl }; keyed = (refl, tt) }

-- After a request.
abbrev asked : Shared memory
asked = record running { world = serve memory (λ s. s) parse (show tenant 1) both_world }

Reach-IsSafe_example :
    IsSafe memory (handle_event memory files (λ cs. cs) (changed true false) asked)
Reach-IsSafe_example =
    Reach-IsSafe memory memory-IsLawful (λ s. s) parse running
      (handle_event memory files (λ cs. cs) (changed true false) asked)
      (next (next here (served (show tenant 1) running))
        (notified files (λ cs. cs) (changed true false) asked))
      running-IsSafe

-- Nothing is stored, and nothing is catalogued.
abbrev nothing : Catalogue
nothing = record { clusters = λ u. none; linked = λ x j. false }

empty-IsSound : IsSound memory (world empty_log)
empty-IsSound = record {
  clean = record { no_nil = refl; normal = λ i c e. absurd (cc) };
  idle = refl;
}

empty-Represents : Represents memory empty_log nothing
empty-Represents = record {
  joined = λ x j. refl;
  listed = λ i c e. absurd (cc);
  stored = λ u c e. absurd (cc);
}

abbrev exchange : List (Call memory)
exchange =
    save tool_chain_operator east
    ∷ look_up auth "https://api.east.com"
    ∷ link auth 7 "https://api.east.com" true
    ∷ unlink auth 7 "https://api.east.com/"
    ∷ drop tool_chain_operator 1
    ∷ look_up auth "https://api.east.com"
    ∷ []

trace-Allowed_example : Allowed memory nothing (trace memory exchange (world empty_log))
trace-Allowed_example =
    trace-Allowed memory memory-IsLawful reliable.durable exchange nothing (world empty_log)
      empty-IsSound empty-Represents

-- The catalogue of one cluster.
abbrev catalogued : Catalogue
catalogued = put east_row nothing

here_listed : catalogued.clusters east_row.url ≡ some east_row
unfolding put string_eq
here_listed = refl

here_stored : memory.row east_log east_row.cluster_id ≡ some east_row
unfolding nat_eq
here_stored = refl

east-Represents : Represents memory east_log catalogued
unfolding put
east-Represents = record {
  joined = λ x j. refl;
  listed = λ i c at.
      let same : east_row ≡ c = ground (arith, at) in
      subst (λ d. catalogued.clusters d.url ≡ some d) same here_listed;
  stored = λ u c at. elim (Bool-cases (u == east_row.url)) [
    | inl shared ↦
        let same : east_row ≡ c = ground (arith, at, shared) in
        subst (λ d. (memory.row east_log d.cluster_id ≡ some d) × (d.url ≡ u)) same
          (here_stored, ground (arith, shared))
    | inr apart ↦ ground (arith, at, apart)
  ];
}

after-Same_example :
    (e : Cluster) × (memory.row
        (after memory (save tool_chain_operator east ∷ []) (world east_log)).store
        1
      ≡ some e)
    × (e.url ≡ "https://api.east.com/")
    × (e.created_at ≡ 1)
after-Same_example =
    after-Same memory memory-IsLawful reliable.durable (save tool_chain_operator east ∷ [])
      catalogued (world east_log) "https://api.east.com/" east_row
      (record { clean = east-IsClean; idle = refl }) east-Represents (tt, tt) here_listed
