-- ===== src/Repository/Clusters/Raising.antt =====
-- The errors of GormClusterRepository, and of Normalize.
use fabric8_cluster.Common.{ℕ, String, true, Option, List, ◌≡◌, inl, inr, refl, ◌==◌, nat_eq}
use fabric8_cluster.Errors.{
  Error, Reply, done, failed, DbError, record_not_found, driver, database, not_found, not_found_msg,
  wrapped, is_not_found,
}
use fabric8_cluster.Model.{Cluster, nil_uuid}
use fabric8_cluster.Platform.{Platform}
use fabric8_cluster.Exec.{World}
use fabric8_cluster.Exec.Raising.{
  Failing, Raises, Failing-weaken, if-Raises, handle-Raises, bind-Raises,
}
use fabric8_cluster.Exec.Faults.{Server, Bad, Missing, ◌or◌}
use fabric8_cluster.Repository.Normalize.{normalize}
use fabric8_cluster.Repository.Clusters.{
  found, written, load, find_by_url, draw_uuid, identify, normalized, insert, save_row,
  insert_normalized, create, update, create_or_save, affected, delete_row, delete_found, delete,
  listed, list,
}

pub found-Failing :
    {S A : Type 0} (missing : Error) (q : Reply A) (w : World S)
    → Missing missing
    → Failing (Missing or Server) (found missing q w).0
found-Failing missing (done a) w m = tt
found-Failing missing (failed record_not_found) w m = inl m
found-Failing missing (failed (driver x)) w m = inr tt

pub written-Failing :
    {S A : Type 0} (J : Error → Type 0) (w : World S) (q : Reply A × S)
    → ((d : DbError) → J (database d))
    → Failing J (written w q).0
written-Failing J w (done a, s) server = tt
written-Failing J w (failed d, s) server = server d

-- What is missing is found to be so.
pub Missing-found : (e : Error) → Missing e → is_not_found e ≡ true
Missing-found (not_found x v) m = refl
Missing-found (not_found_msg x) m = refl
Missing-found (wrapped e x) m = Missing-found e m
Missing-found _ m = absurd m

module _ (P : Platform) where
  pub load-Raises : (id : ℕ) → Raises (Missing or Server) (load P id)
  unfolding load
  load-Raises id w = found-Failing _ (P.find_by_id w.store id) w tt

  pub find_by_url-Raises : (url : String) → Raises (Missing or Server) (find_by_url P url)
  unfolding find_by_url
  find_by_url-Raises url w =
      found-Failing _ (P.find_by_url w.store (P.urls.add_trailing_slash url)) w tt

  pub list-Raises : (t : Option String) → Raises Server (list P t)
  unfolding list listed
  list-Raises t w = listed-Failing (P.find_all w.store t)
    where
      listed-Failing : (q : Reply (List Cluster)) → Failing Server (listed P q w).0
      listed-Failing (done cs) = tt
      listed-Failing (failed record_not_found) = tt
      listed-Failing (failed (driver m)) = tt

  pub delete-Raises : (id : ℕ) → Raises (Missing or Server) (delete P id)
  unfolding delete delete_found delete_row affected
  delete-Raises id = bind-Raises (Missing or Server) (load P id) _ (load-Raises id) (λ c.
      bind-Raises (Missing or Server) (delete_row P id) _
        (λ w. written-Failing _ w (P.delete_cluster w.store id) (λ d. inr tt))
        (λ n. if-Raises (Missing or Server) (n == 0) _ _ (λ w. inl tt) (λ w. tt)))

  save_row-Raises : (c : Cluster) → Raises (Bad or Server) (save_row P c)
  unfolding save_row
  save_row-Raises c w = written-Failing (Bad or Server) w (P.save_cluster w.store c) (λ d. inr tt)

  insert-Raises : (c : Cluster) → Raises (Bad or Server) (insert P c)
  unfolding insert
  insert-Raises c w = written-Failing (Bad or Server) w (P.insert_cluster w.store c) (λ d. inr tt)

  update-Raises :
      (existing c : Cluster)
      → ((c : Cluster) → Failing Bad (normalize P.urls c))
      → Raises (Bad or Server) (update P existing c)
  unfolding update
  update-Raises existing c normal =
      bind-Raises (Bad or Server) (normalized P c) _
        (λ w. Failing-weaken Bad (Bad or Server) (λ e b. inl b) (normalize P.urls c) (normal c))
        (λ c'. save_row-Raises (record c' {
          cluster_id = existing.cluster_id;
          created_at = existing.created_at;
          updated_at = existing.updated_at;
        }))

  create-Raises :
      (c : Cluster)
      → ((c : Cluster) → Failing Bad (normalize P.urls c))
      → Raises (Bad or Server) (create P c)
  unfolding create identify insert_normalized draw_uuid
  create-Raises c normal =
      bind-Raises (Bad or Server) (identify P c) _
        (if-Raises (Bad or Server) (c.cluster_id == nil_uuid) _ _ (λ w. tt) (λ w. tt))
        (λ c'.
          bind-Raises (Bad or Server) (normalized P c') _
            (λ w.
              Failing-weaken Bad (Bad or Server) (λ e b. inl b) (normalize P.urls c') (normal c'))
            insert-Raises)

  -- A cluster that is not found is created, so nothing is missing.
  pub create_or_save-Raises :
      (c : Cluster)
      → ((c : Cluster) → Failing Bad (normalize P.urls c))
      → Raises (Bad or Server) (create_or_save P c)
  unfolding create_or_save
  create_or_save-Raises c normal =
      handle-Raises (Bad or Server) (Missing or Server) (find_by_url P c.url) _ _
        (find_by_url-Raises c.url) (λ existing. update-Raises existing c normal)
        (λ e why. elim why [
          | inl missing ↦ rw (Missing-found e missing) (create-Raises c normal)
          | inr server ↦
              if-Raises (Bad or Server) (is_not_found e) _ _ (create-Raises c normal)
                (λ w. inr server)
        ])
