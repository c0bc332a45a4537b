-- ===== src/Service/Catalogue/Linking.antt =====
-- The methods on links answer as the catalogue allows.
use fabric8_cluster.Common.{ℕ, String, Bool, true, false, ◌≡◌, sym, ◌∙◌, ap, subst}
use fabric8_cluster.Errors.{Result, ok, err}
use fabric8_cluster.Platform.{Platform, IsLawful}
use fabric8_cluster.Platform.Tables.{IsDurable}
use fabric8_cluster.Exec.{World}
use fabric8_cluster.Service.Links
use fabric8_cluster.Service.Links.Linking.{
  link_identity_to_cluster_ok, link_identity_to_cluster_err, remove_identity_to_cluster_link_ok,
  remove_identity_to_cluster_link_err,
}
use fabric8_cluster.Service.Invariant.{IsSound}
use fabric8_cluster.Service.Catalogue.{
  Catalogue, set_link, link, unlink, of_link, of_unlink, Allows, joined, not_joined, parted,
  not_parted,
}
use fabric8_cluster.Service.Catalogue.Rows.{Represents, Represents-same, set_link-Represents}

module _ (P : Platform) (L : IsLawful P) (D : IsDurable P.db) (k : Catalogue) (w w' : World P.State)
    (sound : IsSound P w) (rep : Represents P w.store k) where
  pub link-Matched :
      (ctx : P.Context) (x : ℕ) (url : String) (ignore : Bool) (q : Result Unit)
      → Links.link_identity_to_cluster P ctx x url ignore w ≡ (q, w')
      → (k' : Catalogue) × Allows P k (link ctx x url ignore) (of_link q) k'
        × Represents P w'.store k'
  link-Matched ctx x url ignore (ok u) e =
      let (c, at, own, joins, strict, allowed) =
        link_identity_to_cluster_ok P L ctx x url w w' sound.idle D ignore e in
      (
        set_link x c.cluster_id true k,
        joined ctx x url ignore c allowed (rw (← own) (rep.listed c.cluster_id c at))
            (λ no. sym (rep.joined x c.cluster_id) ∙ strict no),
        set_link-Represents P L w.store w'.store k rep x c.cluster_id true joins.rows joins.others,
      )
  link-Matched ctx x url ignore (err z) e = (
    k,
    not_joined ctx x url ignore z,
    Represents-same P L w.store w'.store k rep
        (link_identity_to_cluster_err P L ctx x url w w' sound.idle ignore z e),
  )

  pub unlink-Matched :
      (ctx : P.Context) (x : ℕ) (url : String) (q : Result Unit)
      → Links.remove_identity_to_cluster_link P ctx x url w ≡ (q, w')
      → (k' : Catalogue) × Allows P k (unlink ctx x url) (of_unlink q) k' × Represents P w'.store k'
  unlink-Matched ctx x url (ok u) e =
      let (i, c, at, own, was, sets, allowed) =
        remove_identity_to_cluster_link_ok P L ctx x url w w' sound.idle D e in
      let id : c.cluster_id ≡ i = L.constrained.primary_key w.store i c at in
      (
        set_link x c.cluster_id false k,
        parted ctx x url c allowed (rw (← own) (rep.listed i c at))
            (sym (rep.joined x c.cluster_id) ∙ ap (P.linked w.store x) id ∙ was),
        subst (λ j. Represents P w'.store (set_link x j false k)) (sym id)
            (set_link-Represents P L w.store w'.store k rep x i false sets.rows sets.links),
      )
  unlink-Matched ctx x url (err z) e = (
    k,
    not_parted ctx x url z,
    Represents-same P L w.store w'.store k rep
        (remove_identity_to_cluster_link_err P L ctx x url w w' sound.idle z e),
  )
