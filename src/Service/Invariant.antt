-- ===== src/Service/Invariant.antt =====
-- The invariant of the service, kept by each of its methods, whoever calls and however it ends.
pub mod Saving
pub mod Linking
pub mod Reading
pub mod Syncing
use fabric8_cluster.Common.{
  ℕ, String, Bool, ◌≡◌, ◌∙◌, sym, inl, inr, refl, ap, true, false, Option, none, some, List, [],
  ◌∷◌, arith, is_blank, Option-cases,
}
use fabric8_cluster.Errors.{
  Error, Reply-cases, Fetch-cases, Result, ok, err, Reply, done, failed, record_not_found, driver,
  Result-cases, is_not_found,
}
use fabric8_cluster.Model.{Cluster, nil_uuid}
use fabric8_cluster.Platform.{Platform, IsLawful}
use fabric8_cluster.Exec.{World, Exec, pure, raise, handle}
use fabric8_cluster.Exec.Keeping.{
  Keeps, pure-Keeps, raise-Keeps, if-Keeps, handle-Keeps, bind-Keeps,
}
use fabric8_cluster.Repository.Clusters as Rows
use fabric8_cluster.Repository.Clusters.Invariant.{IsClean, create_or_save-IsClean, delete-IsClean}
use fabric8_cluster.Repository.Identities
use fabric8_cluster.Repository.Identities.Links.{create_ok, create_err, delete_ok, delete_err}
use fabric8_cluster.Transaction.{in_transaction}
use fabric8_cluster.Transaction.Keeps.{in_transaction-keeps}
use fabric8_cluster.Service.Validation.{validate_url, check}
use fabric8_cluster.Service.Clusters
use fabric8_cluster.Service.Links

-- The table of clusters is clean and no transaction is running.
pub record IsSound (P : Platform) (w : World P.State) : Type 0 where
  pub clean : IsClean P w.store
  pub idle : w.in_transaction ≡ false

module _ (P : Platform) (L : IsLawful P) where
  -- Reads leave the state as it is.
  pub find_by_url-Keeps : (url : String) → Keeps (IsSound P) (Rows.find_by_url P url)
  unfolding Rows.find_by_url
  find_by_url-Keeps url = record { after = λ w h. ground arith }

  -- A piece of work that keeps the table clean keeps the service sound in a transaction.
  pub transaction-Keeps :
      {A : Type 0} (m : Exec P.State A)
      → ((w : World P.State) → IsClean P w.store → IsClean P (m w).1.store)
      → Keeps (IsSound P) (in_transaction P m)
  transaction-Keeps m km = record {
    after = λ w h.
        let (clean, idle) =
          in_transaction-keeps P L (IsClean P) m w (in_transaction P m w).1 h.idle h.clean
            (λ q v ran.
              rw (ap (λ z. z.1.store) ran) at (km (record w { in_transaction = true }) h.clean))
            (in_transaction P m w).0 refl in
        record { clean = clean; idle = idle };
  }
