-- ===== src/Service/Invariant/Saving.antt =====
-- The methods on clusters keep the service sound.
use fabric8_cluster.Common.{ℕ, String, ◌≡◌, ◌∙◌, refl, Option, arith, is_blank}
use fabric8_cluster.Errors.{Reply-cases, Fetch-cases, is_not_found}
use fabric8_cluster.Model.{Cluster}
use fabric8_cluster.Platform.{Platform, IsLawful}
use fabric8_cluster.Exec.{World}
use fabric8_cluster.Exec.Keeping.{
  Keeps, pure-Keeps, raise-Keeps, if-Keeps, handle-Keeps, bind-Keeps,
}
use fabric8_cluster.Repository.Clusters as Rows
use fabric8_cluster.Repository.Clusters.Invariant.{create_or_save-IsClean, delete-IsClean}
use fabric8_cluster.Service.Clusters
use fabric8_cluster.Service.Invariant.{IsSound, find_by_url-Keeps, transaction-Keeps}

module _ (P : Platform) (L : IsLawful P) where
  draw_uuid-Keeps : Keeps (IsSound P) (Rows.draw_uuid P)
  unfolding Rows.draw_uuid
  draw_uuid-Keeps = record { after = λ w h. record { clean = h.clean; idle = h.idle } }

  load-Keeps : (id : ℕ) → Keeps (IsSound P) (Rows.load P id)
  unfolding Rows.load
  load-Keeps id = record { after = λ w h. ground arith }

  list-Keeps : (t : Option String) → Keeps (IsSound P) (Rows.list P t)
  unfolding Rows.list
  list-Keeps t = record { after = λ w h. ground arith }

  complete-Keeps : (c : Cluster) → Keeps (IsSound P) (Clusters.complete P c)
  unfolding Clusters.complete
  complete-Keeps c =
      handle-Keeps (IsSound P) _ _ _ (find_by_url-Keeps P L c.url) (λ a. pure-Keeps (IsSound P) _)
        (λ e.
          if-Keeps (IsSound P) (is_not_found e) _ _
            (bind-Keeps (IsSound P) _ _ draw_uuid-Keeps (λ a. pure-Keeps (IsSound P) _))
            (raise-Keeps (IsSound P) _ _))

  validate-Keeps : (c : Cluster) → Keeps (IsSound P) (Clusters.validate P c)
  unfolding Clusters.validate
  validate-Keeps c =
      bind-Keeps (IsSound P) _ _ (record { after = λ w h. h })
        (λ a.
          if-Keeps (IsSound P) (is_blank c.token_provider_id) _ _ (complete-Keeps c)
            (pure-Keeps (IsSound P) _))

  pub create_or_save_cluster-Keeps :
      (ctx : P.Context) (c : Cluster) → Keeps (IsSound P) (Clusters.create_or_save_cluster P ctx c)
  unfolding Clusters.create_or_save_cluster
  create_or_save_cluster-Keeps ctx c =
      if-Keeps (IsSound P) _ _ _
        (handle-Keeps (IsSound P) _ _ _ (validate-Keeps c)
          (λ a.
            transaction-Keeps P L (Rows.create_or_save P a)
              (λ w. create_or_save-IsClean P L a w _ _ refl))
          (λ e. raise-Keeps (IsSound P) _ _))
        (raise-Keeps (IsSound P) _ _)

  delete-idle :
      (id : ℕ) (w : World P.State) → (Rows.delete P id w).1.in_transaction ≡ w.in_transaction
  unfolding Rows.delete Rows.load Rows.delete_found
  delete-idle id w =
      ground
        (arith, Reply-cases (P.delete_cluster w.store id), Fetch-cases (P.find_by_id w.store id))

  delete_row-Keeps : (id : ℕ) → Keeps (IsSound P) (Rows.delete P id)
  delete_row-Keeps id = record {
    after = λ w h. record {
      clean = delete-IsClean P L id w _ _ refl h.clean;
      idle = delete-idle id w ∙ h.idle;
    };
  }

  pub delete-Keeps : (ctx : P.Context) (id : ℕ) → Keeps (IsSound P) (Clusters.delete P ctx id)
  unfolding Clusters.delete
  delete-Keeps ctx id =
      if-Keeps (IsSound P) _ _ _ (delete_row-Keeps id) (raise-Keeps (IsSound P) _ _)
