-- ===== src/Service/Catalogue/Matching.antt =====
-- The methods on clusters answer as the catalogue allows.
use fabric8_cluster.Common.{
  subst, ℕ, String, true, false, [], ◌∷◌, ◌≡◌, inl, inr, arith, ap, sym, ◌∙◌, refl, Option-cases,
  Bool-cases,
}
use fabric8_cluster.Errors.{unauthorized, bad_parameter, Error, Result, ok, err, is_not_found}
use fabric8_cluster.Model.{Cluster}
use fabric8_cluster.Platform.{Platform, IsLawful, auth, tool_chain_operator}
use fabric8_cluster.Platform.Tables.{IsDurable}
use fabric8_cluster.Exec.{World}
use fabric8_cluster.Repository.Clusters as Table
use fabric8_cluster.Repository.Clusters.Lookup.{
  find_by_url_ok, find_by_url_same, find_by_url_missing,
}
use fabric8_cluster.Repository.Clusters.Deletion.{Removes, delete-Removes, delete_refused}
use fabric8_cluster.Repository.Normalize.Laws.{normalize-url}
use fabric8_cluster.Service.Clusters
use fabric8_cluster.Service.Clusters.Saving.{create_or_save_cluster_put, create_or_save_cluster_err}
use fabric8_cluster.Service.Validation.{validate_url}
use fabric8_cluster.Service.Invariant.{IsSound}
use fabric8_cluster.Service.Catalogue.{
  Catalogue, put, remove, Call, save, drop, look_up, Answer, of_save, of_drop, of_look_up, Allows,
  saved, not_saved, dropped, not_dropped, looked_up, not_looked_up,
}
use fabric8_cluster.Service.Catalogue.Rows.{
  Represents, Represents-same, put-Represents, remove-Represents, Origin-Identified,
}

module _ (P : Platform) (L : IsLawful P) (D : IsDurable P.db) (k : Catalogue) (w w' : World P.State)
    (sound : IsSound P w) (rep : Represents P w.store k) where
  -- The catalogue answers as the method did, and the table holds what it comes to.
  abbrev Matched : Call P → Answer → Type 0
  Matched q a = (k' : Catalogue) × Allows P k q a k' × Represents P w'.store k'

  pub save-Matched :
      (ctx : P.Context) (c : Cluster) (q : Result Cluster)
      → Clusters.create_or_save_cluster P ctx c w ≡ (q, w')
      → Matched (save ctx c) (of_save q)
  save-Matched ctx c (ok r) e =
      let (allowed, valid, puts, origin) =
        create_or_save_cluster_put P L ctx c w w' sound.idle r D e in
      let url : r.url ≡ P.urls.add_trailing_slash c.url = normalize-url P.urls _ r puts.content in
      (
        put r k,
        saved ctx c r allowed valid puts.content
            (Origin-Identified P L w.store w'.store k rep c r url origin),
        put-Represents P L w.store w'.store k rep c _ r puts url origin,
      )
  save-Matched ctx c (err x) e = (
    k,
    not_saved ctx c x,
    Represents-same P L w.store w'.store k rep
        (create_or_save_cluster_err P L ctx c w w' sound.idle x e),
  )

  drop_refused :
      (ctx : P.Context) (id : ℕ) (x : Error) (q : Result Unit)
      → is_not_found x ≡ false
      → Path (Result Unit × World P.State) (err x, w) (q, w')
      → Matched (drop ctx id) (of_drop q)
  drop_refused ctx id x (ok u) other e = absurd (cc)
  drop_refused ctx id x (err y) other e = (
    k,
    not_dropped ctx id y (λ n. absurd (cc)),
    Represents-same P L w.store w'.store k rep (ap (λ z. z.1.store) (sym e)),
  )

  drop_allowed :
      (ctx : P.Context) (id : ℕ) (q : Result Unit)
      → P.is_specific_service_account ctx (tool_chain_operator ∷ []) ≡ true
      → Table.delete P id w ≡ (q, w')
      → Matched (drop ctx id) (of_drop q)
  drop_allowed ctx id (ok u) allowed e =
      let removes = delete-Removes P L id w w' sound.clean.no_nil e in
      elim (Option-cases (P.row w.store id)) [
        | inl gone ↦ absurd (removes.present gone)
        | inr (d, at) ↦
            let own : d.cluster_id ≡ id = L.constrained.primary_key w.store id d at in
            (
              remove d k,
              subst (λ i. Allows P k (drop ctx i) (of_drop (ok tt)) (remove d k)) own
                  (dropped ctx d allowed (rep.listed id d at)),
              remove-Represents P L w.store w'.store k rep d (ap (P.row w.store) own ∙ at)
                  (subst (Removes P w.store w'.store) (sym own) removes),
            )
      ]
  drop_allowed ctx id (err x) allowed e =
      let (same, missing) = delete_refused P L id w w' sound.clean.no_nil x e in
      (
        k,
        not_dropped ctx id x (λ n u d at clash.
            let (row, own) = rep.stored u d at in ground (arith, missing n, row, clash)),
        Represents-same P L w.store w'.store k rep same,
      )

  pub drop-Matched :
      (ctx : P.Context) (id : ℕ) (q : Result Unit)
      → Clusters.delete P ctx id w ≡ (q, w')
      → Matched (drop ctx id) (of_drop q)
  unfolding Clusters.delete
  drop-Matched ctx id q e =
      elim (Bool-cases (P.is_specific_service_account ctx (tool_chain_operator ∷ []))) [
        | inl allowed ↦ drop_allowed ctx id q allowed (rw allowed at e)
        | inr refused ↦
            drop_refused ctx id
              (unauthorized "unauthorized access to delete a cluster configuration") q refl
              (rw (refused) at e)
      ]

  look_up_refused :
      (ctx : P.Context) (url : String) (x : Error) (q : Result Cluster)
      → is_not_found x ≡ false
      → Path (Result Cluster × World P.State) (err x, w) (q, w')
      → Matched (look_up ctx url) (of_look_up q)
  look_up_refused ctx url x (ok c) other e = absurd (cc)
  look_up_refused ctx url x (err y) other e = (
    k,
    not_looked_up ctx url y (λ n. absurd (cc)),
    Represents-same P L w.store w'.store k rep (ap (λ z. z.1.store) (sym e)),
  )

  found-Matched :
      (ctx : P.Context) (url : String) (q : Result Cluster)
      → P.is_specific_service_account ctx (auth ∷ []) ≡ true
      → Table.find_by_url P url w ≡ (q, w')
      → Matched (look_up ctx url) (of_look_up q)
  found-Matched ctx url (ok c) allowed e =
      let (row, at, same) = find_by_url_ok P L.reading w url c w' e in
      (k, looked_up ctx url c allowed (rw (← at) (rep.listed c.cluster_id c row)), rw same rep)
  found-Matched ctx url (err x) allowed e = (
    k,
    not_looked_up ctx url x (λ n. elim (Option-cases (k.clusters (P.urls.add_trailing_slash url))) [
      | inl nothing ↦ nothing
      | inr (d, at) ↦
          let (row, own) = rep.stored _ d at in
          absurd (find_by_url_missing P L.reading w url x w' d.cluster_id d e n row own)
    ]),
    rw (find_by_url_same P L.reading w url (err x) w' e) rep,
  )

  pub look_up-Matched :
      (ctx : P.Context) (url : String) (q : Result Cluster)
      → Clusters.find_by_url_for_auth P ctx url w ≡ (q, w')
      → Matched (look_up ctx url) (of_look_up q)
  unfolding Clusters.find_by_url_for_auth Clusters.find Clusters.find_valid
  look_up-Matched ctx url q e = elim (Bool-cases (P.is_specific_service_account ctx (auth ∷ []))) [
    | inr refused ↦
        look_up_refused ctx url (unauthorized "unauthorized access to cluster info") q refl
          (rw (refused) at e)
    | inl allowed ↦ elim (Option-cases (validate_url P.urls url)) [
      | inl fine ↦ found-Matched ctx url q allowed (rw (allowed, fine) at e)
      | inr (m, bad) ↦
          look_up_refused ctx url (bad_parameter "cluster-url" url) q refl (rw (allowed, bad) at e)
    ]
  ]
