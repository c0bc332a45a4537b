-- ===== src/Service/Clusters/Working.antt =====
-- A save that nothing stands in the way of succeeds.
use fabric8_cluster.Common.{
  suc, ℕ, String, ◌≡◌, ◌≢◌, ◌∙◌, ap, refl, none, arith, inl, inr, true, false, [], ◌∷◌, ◌==◌,
  nat_eq, if◌then◌else◌, is_blank, Bool-cases,
}
use fabric8_cluster.Errors.{ok, Fetch-cases}
use fabric8_cluster.Model.{Cluster, nil_uuid}
use fabric8_cluster.Platform.{Platform, IsLawful, tool_chain_operator}
use fabric8_cluster.Platform.Tables.{IsWorking, IsReliable}
use fabric8_cluster.Exec.{World, Exec}
use fabric8_cluster.Repository.Normalize.{normalize}
use fabric8_cluster.Repository.Clusters as Rows
use fabric8_cluster.Repository.Clusters.Working.{create_or_save_works}
use fabric8_cluster.Transaction.{
  in_transaction, execute_in_transaction, select, begin_transaction, entered, end_transaction,
}
use fabric8_cluster.Service.Validation.{check}
use fabric8_cluster.Service.Validation.Laws.{IsValid, check_iff}
use fabric8_cluster.Service.Clusters.{validate, complete, create_or_save_cluster}

module _ (P : Platform) (R : IsReliable P.db) {A : Type 0} where
  -- Work that succeeds makes a transaction that succeeds.
  in_transaction_works :
      (m : Exec P.State A) (w v : World P.State) (a : A)
      → w.in_transaction ≡ false
      → m (record w { in_transaction = true }) ≡ (ok a, v)
      → (w' : World P.State) × (in_transaction P m w ≡ (ok a, w'))
  unfolding in_transaction execute_in_transaction select begin_transaction entered end_transaction
  in_transaction_works m w v a outside ran = (
    record v { store = (P.commit w.store v.store).1; in_transaction = false },
    ground (
      arith,
      ran,
      outside,
      R.begin_works w.store,
      R.set_isolation_works w.store w.isolation,
      R.in_time w.store v.store,
    ),
  )

module _ (P : Platform) (L : IsLawful P) (W : IsWorking P.db) (c n : Cluster) (w : World P.State)
    (normal : normalize P.urls c ≡ ok n) (blank : c.cluster_id ≡ nil_uuid)
    (new : (k : ℕ) → P.row w.store (P.new_v4 k) ≡ none) where
  -- What is saved has the content of the cluster sent, and an id that is free.
  record Ready (c' : Cluster) (v : World P.State) : Type 0 where
    same_store : v.store ≡ w.store
    same_flag : v.in_transaction ≡ w.in_transaction
    normalized :
        normalize P.urls c'
        ≡ ok (record n { cluster_id = c'.cluster_id; token_provider_id = c'.token_provider_id })
    free :
        P.row w.store (if c'.cluster_id == nil_uuid then P.new_v4 v.drawn else c'.cluster_id) ≡ none

  retoken :
      (i : ℕ) (t : String)
      → normalize P.urls (record c { cluster_id = i; token_provider_id = t })
        ≡ ok (record n { cluster_id = i; token_provider_id = t })
  unfolding normalize
  retoken i t = ground (arith, normal)

  complete_works : (c' : Cluster) × (v : World P.State) × (complete P c w ≡ (ok c', v)) × Ready c' v
  unfolding complete Rows.find_by_url Rows.draw_uuid
  complete_works = elim (Fetch-cases (P.find_by_url w.store (P.urls.add_trailing_slash c.url))) [
    | inl (old, found) ↦ (
      record c { token_provider_id = old.token_provider_id },
      w,
      rw found refl,
      record {
        same_store = refl;
        same_flag = refl;
        normalized = retoken c.cluster_id old.token_provider_id;
        free = ground (arith, blank, new w.drawn);
      },
    )
    | inr (inl lost) ↦ (
      record c {
        cluster_id = P.new_v4 w.drawn;
        token_provider_id = P.uuid_string (P.new_v4 w.drawn);
      },
      record w { drawn = suc w.drawn },
      rw lost refl,
      record {
        same_store = refl;
        same_flag = refl;
        normalized = retoken (P.new_v4 w.drawn) (P.uuid_string (P.new_v4 w.drawn));
        free = ground (arith, L.new_v4-ne-nil w.drawn, new w.drawn);
      },
    )
    | inr (inr (m, broken)) ↦ absurd (W.find_by_url_works w.store _ m broken)
  ]

  validate_works :
      IsValid P.urls c
      → (c' : Cluster) × (v : World P.State) × (validate P c w ≡ (ok c', v)) × Ready c' v
  unfolding validate
  validate_works valid =
      let fine : check P.urls c ≡ ok tt = (check_iff P.urls c).1 valid in
      elim (Bool-cases (is_blank c.token_provider_id)) [
        | inl no_token ↦
            let (c', v, ran, ready) = complete_works in (c', v, rw (fine, no_token) ran, ready)
        | inr token ↦ (
          c,
          w,
          rw (fine, token) refl,
          record {
            same_store = refl;
            same_flag = refl;
            normalized = retoken c.cluster_id c.token_provider_id;
            free = ground (arith, blank, new w.drawn);
          },
        )
      ]

  -- On a lawful platform where transactions succeed, and so does every statement that no constraint
  -- of the tables forbids: if no transaction is running, new uuids are free, the caller is the tool
  -- chain operator, the cluster is valid, has no id, and is normalized to one whose url and domain
  -- are not empty, then create_or_save_cluster returns a cluster.
  pub create_or_save_cluster_works :
      (ctx : P.Context)
      → P.is_specific_service_account ctx (tool_chain_operator ∷ []) ≡ true
      → IsValid P.urls c
      → n.url ≢ ""
      → n.app_dns ≢ ""
      → w.in_transaction ≡ false
      → (r : Cluster) × (w' : World P.State) × (create_or_save_cluster P ctx c w ≡ (ok r, w'))
  unfolding create_or_save_cluster
  create_or_save_cluster_works ctx allowed valid url_given app_dns_given outside =
      let (c', v, checked, ready) = validate_works valid in
      let (r, u, ran) =
        create_or_save_works P L W c'
          (record n { cluster_id = c'.cluster_id; token_provider_id = c'.token_provider_id })
          (record v { in_transaction = true }) ready.normalized url_given app_dns_given
          (ap (λ s. P.row s (if c'.cluster_id == nil_uuid then P.new_v4 v.drawn else c'.cluster_id))
              ready.same_store
            ∙ ready.free) in
      let (w', kept) =
        in_transaction_works P W.reliable (Rows.create_or_save P c') v u r
          (ready.same_flag ∙ outside) ran in
      (r, w', rw (allowed, checked) kept)
