-- ===== src/Transaction/Leaving.antt =====
-- The transactions that BeginTransaction leaves open in the database.
use fabric8_cluster.Common.{◌≡◌, ◌≢◌, false, string_eq}
use fabric8_cluster.Errors.{DbError, done, failed}
use fabric8_cluster.Platform.{Platform}
use fabric8_cluster.Exec.{World}

module _ (P : Platform) where
  -- The database begins a transaction and refuses the isolation level that is set.
  pub record RefusesLevel (w : World P.State) : Type 0 where
    pub outside : w.in_transaction ≡ false
    pub level_set : w.isolation ≢ ""
    pub begins : P.begin w.store ≡ done tt
    pub refusal : DbError
    pub refuses : P.set_isolation w.store w.isolation ≡ failed refusal
