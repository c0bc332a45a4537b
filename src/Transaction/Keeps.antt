-- ===== src/Transaction/Keeps.antt =====
-- What a transaction keeps, whether it ends with a value or with an error, and whether or not its
-- commit is heard of.
use fabric8_cluster.Common.{◌≡◌, inl, inr, subst, sym, true, false, ◌∙◌}
use fabric8_cluster.Errors.{Result, ok, err}
use fabric8_cluster.Platform.{Platform, IsLawful}
use fabric8_cluster.Exec.{World, Exec}
use fabric8_cluster.Transaction.{in_transaction}
use fabric8_cluster.Transaction.Atomicity.{in_transaction_ok, in_transaction_err, commit-either}

module _ (P : Platform) (L : IsLawful P) {A : Type 0} (Q : P.State → Type 0) (m : Exec P.State A)
    (w w' : World P.State) (outside : w.in_transaction ≡ false) (before : Q w.store)
    (body : (q : Result A) (v : World P.State)
      → m (record w { in_transaction = true }) ≡ (q, v)
      → Q v.store) where
  -- What holds before the transaction and after its work holds after the transaction.
  pub in_transaction-keeps :
      (q : Result A) → in_transaction P m w ≡ (q, w') → Q w'.store × (w'.in_transaction ≡ false)
  in_transaction-keeps (ok a) e =
      let (v, ran, store, flag) = in_transaction_ok P L m w w' a outside e in
      (
        elim (commit-either P L w.store v.store) [
          | inl done_all ↦ subst Q (sym (store ∙ done_all)) (body (ok a) v ran)
          | inr lost ↦ subst Q (sym (store ∙ lost)) before
        ],
        flag,
      )
  in_transaction-keeps (err x) e =
      let (same, flag) = in_transaction_err P L m w w' x outside e in
      (subst Q (sym same) before, flag)
