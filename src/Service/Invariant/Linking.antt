-- ===== src/Service/Invariant/Linking.antt =====
-- The methods on links keep the service sound.
use fabric8_cluster.Common.{ℕ, String, Bool, ◌≡◌, ◌∙◌, sym, inl, inr, ap, Option, none, some, arith}
use fabric8_cluster.Errors.{Result-cases, is_not_found}
use fabric8_cluster.Model.{nil_uuid}
use fabric8_cluster.Platform.{Platform, IsLawful}
use fabric8_cluster.Exec.{World, Exec}
use fabric8_cluster.Exec.Keeping.{
  Keeps, pure-Keeps, raise-Keeps, if-Keeps, handle-Keeps, bind-Keeps,
}
use fabric8_cluster.Repository.Clusters.Invariant.{IsClean}
use fabric8_cluster.Repository.Identities
use fabric8_cluster.Repository.Identities.Links.{create_ok, create_err, delete_ok, delete_err}
use fabric8_cluster.Service.Links
use fabric8_cluster.Service.Invariant.{IsSound, find_by_url-Keeps, transaction-Keeps}

module _ (P : Platform) (L : IsLawful P) where
  -- Links are no rows.
  same_rows-IsClean :
      (s t : P.State) → ((j : ℕ) → P.row t j ≡ P.row s j) → IsClean P s → IsClean P t
  same_rows-IsClean s t same clean = record {
    no_nil = same nil_uuid ∙ clean.no_nil;
    normal = λ i c at. clean.normal i c (sym (same i) ∙ at);
  }

  create_link-IsClean :
      (x i : ℕ) (w : World P.State)
      → IsClean P w.store
      → IsClean P (Identities.create P x i w).1.store
  create_link-IsClean x i w clean = elim (Result-cases (Identities.create P x i w).0) [
    | inl (u, e) ↦
        same_rows-IsClean w.store _
          (create_ok P L x i w _ (ap (λ q. (q, (Identities.create P x i w).1)) e)).0.rows clean
    | inr (z, e) ↦
        rw (create_err P L x i w _ z (ap (λ q. (q, (Identities.create P x i w).1)) e)) clean
  ]

  delete_link-IsClean :
      (x : ℕ) (u : String) (w : World P.State)
      → IsClean P w.store
      → IsClean P (Identities.delete P x u w).1.store
  delete_link-IsClean x u w clean = elim (Result-cases (Identities.delete P x u w).0) [
    | inl (v, e) ↦
        let (i, c, at, same, was, sets) =
          delete_ok P L x u w _ (ap (λ q. (q, (Identities.delete P x u w).1)) e) in
        same_rows-IsClean w.store _ sets.rows clean
    | inr (z, e) ↦
        rw (delete_err P L x u w _ z (ap (λ q. (q, (Identities.delete P x u w).1)) e)).0 clean
  ]

  create_identity_cluster-Keeps :
      (x i : ℕ) → Keeps (IsSound P) (Links.create_identity_cluster P x i)
  unfolding Links.create_identity_cluster
  create_identity_cluster-Keeps x i =
      transaction-Keeps P L _ (λ w h. ground (arith, create_link-IsClean x i w h))

  link_load-Keeps : (x i : ℕ) → Keeps (IsSound P) (Identities.load P x i)
  unfolding Identities.load
  link_load-Keeps x i = record { after = λ w h. ground arith }

  link_found-Keeps : (x i : ℕ) (ignore : Bool) → Keeps (IsSound P) (Links.link_found P x ignore i)
  unfolding Links.link_found
  link_found-Keeps x i ignore =
      if-Keeps (IsSound P) ignore _ _
        (handle-Keeps (IsSound P) _ _ _ (link_load-Keeps x i) (λ a. pure-Keeps (IsSound P) _)
          (λ e.
            if-Keeps (IsSound P) (is_not_found e) _ _ (create_identity_cluster-Keeps x i)
              (raise-Keeps (IsSound P) _ _)))
        (create_identity_cluster-Keeps x i)

  with_valid_url-Keeps :
      (url : String) (r : Option String) (m : Exec P.State Unit)
      → Keeps (IsSound P) m
      → Keeps (IsSound P) (Links.with_valid_url P url r m)
  with_valid_url-Keeps url none m km = km
  with_valid_url-Keeps url (some x) m km = raise-Keeps (IsSound P) _ _

  pub link_identity_to_cluster-Keeps :
      (ctx : P.Context) (x : ℕ) (url : String) (ignore : Bool)
      → Keeps (IsSound P) (Links.link_identity_to_cluster P ctx x url ignore)
  unfolding Links.link_identity_to_cluster
  link_identity_to_cluster-Keeps ctx x url ignore =
      if-Keeps (IsSound P) _ _ _
        (with_valid_url-Keeps url _ _ (
          bind-Keeps (IsSound P) _ _ (find_by_url-Keeps P L url)
            (λ c. link_found-Keeps x c.cluster_id ignore)))
        (raise-Keeps (IsSound P) _ _)

  pub remove_identity_to_cluster_link-Keeps :
      (ctx : P.Context) (x : ℕ) (url : String)
      → Keeps (IsSound P) (Links.remove_identity_to_cluster_link P ctx x url)
  unfolding Links.remove_identity_to_cluster_link
  remove_identity_to_cluster_link-Keeps ctx x url =
      if-Keeps (IsSound P) _ _ _
        (with_valid_url-Keeps url _ _ (transaction-Keeps P L _ (delete_link-IsClean x url)))
        (raise-Keeps (IsSound P) _ _)
