-- ===== src/Tests/Wired.antt =====
-- Two requests with a transaction each.
use fabric8_cluster.Common.{[], ◌∷◌, List, nat_eq}
use fabric8_cluster.Wiring.{
  Heap, Call, ask, ask_within, enter, leave, new_gorm_db, cluster_service, act_all,
}
use fabric8_cluster.Wiring.Requests.{no_contexts, IsFresh, ask-IsFresh}

-- Both requests begin a transaction, a service of the first asks for a service, and the first ends.
abbrev calls : List Call
calls = ask ∷ ask ∷ enter 0 70 ∷ enter 1 71 ∷ ask_within 0 ∷ leave 0 ∷ []

ask-IsFresh_example :
    IsFresh [] tt 5
      (act_all [] 5 calls no_contexts)
      (cluster_service [] 5 (new_gorm_db [] 5) (act_all [] 5 calls no_contexts)).0
      (cluster_service [] 5 (new_gorm_db [] 5) (act_all [] 5 calls no_contexts)).1
ask-IsFresh_example = ask-IsFresh [] tt 5 calls

abbrev begun : Heap
begun = act_all [] 5 (ask ∷ ask ∷ []) no_contexts
