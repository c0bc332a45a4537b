-- ===== src/Service/Invariant/Syncing.antt =====
-- The synchronization with the configuration keeps the service sound, whatever fails on its way.
use fabric8_cluster.Common.{ℕ, refl, none, List, [], ◌∷◌, arith}
use fabric8_cluster.Errors.{is_not_found}
use fabric8_cluster.Model.{Cluster}
use fabric8_cluster.Platform.{Platform, IsLawful}
use fabric8_cluster.Exec.{World}
use fabric8_cluster.Exec.Keeping.{
  Keeps, pure-Keeps, raise-Keeps, if-Keeps, handle-Keeps, bind-Keeps,
}
use fabric8_cluster.Repository.Clusters as Rows
use fabric8_cluster.Repository.Clusters.Invariant.{IsClean, create_or_save-IsClean, delete-IsClean}
use fabric8_cluster.Service.Sync.{
  save_all, keep_url, delete_gone, delete_all, from_config, create_or_save_cluster_from_config,
}
use fabric8_cluster.Service.Invariant.{IsSound, transaction-Keeps}

module _ (P : Platform) (L : IsLawful P) where
  save_all-Keeps : (cs del : List Cluster) → Keeps (IsSound P) (save_all P cs del)
  unfolding save_all
  save_all-Keeps [] del = pure-Keeps (IsSound P) _
  save_all-Keeps (c ∷ cs) del =
      bind-Keeps (IsSound P) _ _
        (transaction-Keeps P L _ (λ w. create_or_save-IsClean P L (from_config c) w _ _ refl))
        (λ r. save_all-Keeps cs (keep_url P c.url del))

  delete_gone-IsClean :
      (id : ℕ) (w : World P.State) → IsClean P w.store → IsClean P (delete_gone P id w).1.store
  unfolding delete_gone
  delete_gone-IsClean id w clean =
      (handle-Keeps (λ v. IsClean P v.store) (Rows.delete P id) _ _
          (record { after = λ v. delete-IsClean P L id v _ _ refl })
          (λ a. pure-Keeps (λ v. IsClean P v.store) _)
          (λ e.
            if-Keeps (λ v. IsClean P v.store) (is_not_found e) _ _ (pure-Keeps _ _)
              (raise-Keeps _ _ _))).after
        w clean

  delete_all-Keeps : (del : List Cluster) → Keeps (IsSound P) (delete_all P del)
  unfolding delete_all
  delete_all-Keeps [] = pure-Keeps (IsSound P) _
  delete_all-Keeps (c ∷ cs) =
      handle-Keeps (IsSound P) _ _ _ (transaction-Keeps P L _ (delete_gone-IsClean c.cluster_id))
        (λ a. delete_all-Keeps cs) (λ e. delete_all-Keeps cs)

  list-Keeps : Keeps (IsSound P) (Rows.list P none)
  unfolding Rows.list
  list-Keeps = record { after = λ w h. ground arith }

  pub create_or_save_cluster_from_config-Keeps :
      (clusters : List Cluster) → Keeps (IsSound P) (create_or_save_cluster_from_config P clusters)
  unfolding create_or_save_cluster_from_config
  create_or_save_cluster_from_config-Keeps clusters = bind-Keeps (IsSound P) _ _ list-Keeps (λ del.
      bind-Keeps (IsSound P) _ _ (save_all-Keeps clusters del) (λ left. delete_all-Keeps left))
