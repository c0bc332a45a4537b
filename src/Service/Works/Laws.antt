-- ===== src/Service/Works/Laws.antt =====
-- The works statement by statement are the methods of the repositories.
use fabric8_cluster.Common.{ℕ, String, ◌≡◌, inl, inr, ◌==◌, nat_eq, Bool-cases, arith}
use fabric8_cluster.Errors.{
  Result, ok, err, Reply, done, failed, record_not_found, driver, Fetch-cases,
}
use fabric8_cluster.Model.{Cluster}
use fabric8_cluster.Platform.{Platform}
use fabric8_cluster.Exec.{World}
use fabric8_cluster.Repository.Normalize.{normalize}
use fabric8_cluster.Repository.Clusters
use fabric8_cluster.Repository.Identities
use fabric8_cluster.Service.Sync.{delete_gone}
use fabric8_cluster.Transaction.{Run, returned}
use fabric8_cluster.Transaction.Timeout.Phases.{alone}
use fabric8_cluster.Transaction.Timeout.Late.{IsLast}
use fabric8_cluster.Service.Works.{
  ServiceWork, save, drop, link, unlink, finished, saving, inserting, identified, after_look_up,
  row_deleted, after_load, linked_or, no_row, link_deleted, todo_of, method_of,
}

-- The result, and what the statements left.
abbrev pub summary : {S : Type 0} → Result Unit × World S → Run Unit × S
summary (r, w) = (returned r, w.store)

module _ (P : Platform) where
  finished-IsLast : {A : Type 0} (q : Reply A) → IsLast (finished P q)
  finished-IsLast (done a) = tt
  finished-IsLast (failed d) = tt

  saving-IsLast : (existing : Cluster) (r : Result Cluster) → IsLast (saving P existing r)
  saving-IsLast existing (ok c) = finished-IsLast
  saving-IsLast existing (err e) = tt

  inserting-IsLast : (r : Result Cluster) → IsLast (inserting P r)
  inserting-IsLast (ok c) = finished-IsLast
  inserting-IsLast (err e) = tt

  after_look_up-IsLast :
      (uuid : ℕ) (c : Cluster) (q : Reply Cluster) → IsLast (after_look_up P uuid c q)
  after_look_up-IsLast uuid c (done existing) = saving-IsLast existing (normalize P.urls c)
  after_look_up-IsLast uuid c (failed record_not_found) =
      inserting-IsLast (normalize P.urls (identified P uuid c))
  after_look_up-IsLast uuid c (failed (driver m)) = tt

  row_deleted-IsLast : (q : Reply ℕ) → IsLast (row_deleted P q)
  row_deleted-IsLast (done n) = tt
  row_deleted-IsLast (failed d) = tt

  after_load-IsLast : (id : ℕ) (q : Reply Cluster) → IsLast (after_load P id q)
  after_load-IsLast id (done c) = row_deleted-IsLast
  after_load-IsLast id (failed record_not_found) = tt
  after_load-IsLast id (failed (driver m)) = tt

  linked_or-IsLast : (x i : ℕ) (q : Reply Unit) → IsLast (linked_or P x i q)
  linked_or-IsLast x i (done u) = tt
  linked_or-IsLast x i (failed d) = tt

  no_row-IsLast : (x : ℕ) (url : String) (q : Reply Cluster) → IsLast (no_row P x url q)
  no_row-IsLast x url (done c) = tt
  no_row-IsLast x url (failed record_not_found) = tt
  no_row-IsLast x url (failed (driver m)) = tt

  link_deleted-IsLast : (x : ℕ) (url : String) (q : Reply ℕ) → IsLast (link_deleted P x url q)
  link_deleted-IsLast x url (failed d) = tt
  link_deleted-IsLast x url (done n) = elim (Bool-cases (n == 0)) [
    | inl nothing ↦ rw nothing (no_row-IsLast x url)
    | inr some_row ↦ rw some_row tt
  ]

  pub todo_of-IsLast : (uuid : ℕ) (k : ServiceWork) → IsLast (todo_of P uuid k)
  unfolding todo_of
  todo_of-IsLast uuid (save c) = after_look_up-IsLast uuid c
  todo_of-IsLast uuid (drop id) = after_load-IsLast id
  todo_of-IsLast uuid (link x i) = linked_or-IsLast x i
  todo_of-IsLast uuid (unlink x url) = link_deleted-IsLast x url

  save-alone :
      (c : Cluster) (w : World P.State)
      → alone (todo_of P (P.new_v4 w.drawn) (save c)) w.store ≡ summary (method_of P (save c) w)
  unfolding todo_of method_of alone Clusters.create_or_save Clusters.find_by_url Clusters.update
      Clusters.create Clusters.insert_normalized Clusters.draw_uuid
  save-alone c w =
      ground (arith, Fetch-cases (P.find_by_url w.store (P.urls.add_trailing_slash c.url)))

  drop-alone :
      (id : ℕ) (w : World P.State)
      → alone (todo_of P (P.new_v4 w.drawn) (drop id)) w.store ≡ summary (method_of P (drop id) w)
  unfolding todo_of method_of alone delete_gone Clusters.delete Clusters.load Clusters.delete_found
  drop-alone id w = ground (arith, Fetch-cases (P.find_by_id w.store id))

  link-alone :
      (x i : ℕ) (w : World P.State)
      → alone (todo_of P (P.new_v4 w.drawn) (link x i)) w.store ≡ summary (method_of P (link x i) w)
  unfolding todo_of method_of alone Identities.create
  link-alone x i w = ground arith

  unlink-alone :
      (x : ℕ) (url : String) (w : World P.State)
      → alone (todo_of P (P.new_v4 w.drawn) (unlink x url)) w.store
        ≡ summary (method_of P (unlink x url) w)
  unfolding todo_of method_of alone Identities.delete Clusters.find_by_url
  unlink-alone x url w = ground (
    arith,
    Fetch-cases (P.find_by_url (P.delete_link w.store x url).1 (P.urls.add_trailing_slash url)),
  )

  -- Each work that clusterService hands to ExecuteInTransaction, to save, delete, link or unlink,
  -- as a sequence of statements calls Repositories() only at its beginning, and alone it comes to
  -- the result and the state of the database of the methods of the repositories.
  pub todo_of-alone :
      (k : ServiceWork) (w : World P.State)
      → IsLast (todo_of P (P.new_v4 w.drawn) k)
        × (alone (todo_of P (P.new_v4 w.drawn) k) w.store ≡ summary (method_of P k w))
  todo_of-alone k w = (todo_of-IsLast (P.new_v4 w.drawn) k, same k)
    where
      same :
          (k : ServiceWork)
          → alone (todo_of P (P.new_v4 w.drawn) k) w.store ≡ summary (method_of P k w)
      same (save c) = save-alone c w
      same (drop id) = drop-alone id w
      same (link x i) = link-alone x i w
      same (unlink x url) = unlink-alone x url w
