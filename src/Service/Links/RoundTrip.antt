-- ===== src/Service/Links/RoundTrip.antt =====
-- Linking followed by unlinking, with the same text for the url.
use fabric8_cluster.Common.{ℕ, String, ◌≡◌, ◌≢◌, Bool, true, false, some, arith}
use fabric8_cluster.Common.{nat_eq}
use fabric8_cluster.Errors.{Result, ok, err}
use fabric8_cluster.Model.{Cluster}
use fabric8_cluster.Platform.{Platform, IsLawful}
use fabric8_cluster.Platform.Tables.{IsDurable}
use fabric8_cluster.Exec.{World}
use fabric8_cluster.Repository.Clusters.Invariant.{IsClean}
use fabric8_cluster.Service.Links.{link_identity_to_cluster, remove_identity_to_cluster_link}
use fabric8_cluster.Service.Links.Linking.{
  link_identity_to_cluster_ok, remove_identity_to_cluster_link_ok,
  remove_identity_to_cluster_link_err,
}

module _ (P : Platform) (L : IsLawful P) (D : IsDurable P.db) (ctx ctx' : P.Context) (x : ℕ)
    (url : String) (w v w' : World P.State) (outside : w.in_transaction ≡ false)
    (still_outside : v.in_transaction ≡ false) (clean : IsClean P w.store) where
  -- On a lawful platform where commits succeed, outside a transaction and with a clean table: if a
  -- link is made that must not exist yet, and its removal with the same url succeeds next, then all
  -- rows and all links are as they were before.
  pub link-remove :
      link_identity_to_cluster P ctx x url false w ≡ (ok tt, v)
      → remove_identity_to_cluster_link P ctx' x url v ≡ (ok tt, w')
      → ((j : ℕ) → P.row w'.store j ≡ P.row w.store j)
        × ((y j : ℕ) → P.linked w'.store y j ≡ P.linked w.store y j)
  link-remove linked removed =
      let (c, at, c_url, joins, strict, _) =
        link_identity_to_cluster_ok P L ctx x url w v outside D false linked in
      let (i, d, at', d_url, was, sets, _) =
        remove_identity_to_cluster_link_ok P L ctx' x url v w' still_outside D removed in
      let row_before : P.row w.store i ≡ some d = ground (arith, joins.rows i) in
      let same_url : c.url ≡ d.url = ground (arith, (clean.normal i d row_before).url_normal) in
      let same : c.cluster_id ≡ i =
        L.constrained.unique_url w.store c.cluster_id i c d at row_before same_url in
      (
        λ j. ground (arith, joins.rows j, sets.rows j),
        λ y j. ground (arith, joins.others y j, sets.links y j),
      )

  -- On a lawful platform where commits succeed, outside a transaction and with a clean table: if a
  -- link is made with a url that lacks its trailing slash, its removal with the same url fails, and
  -- the link is still there.
  pub link-remove_unslashed :
      (ignore : Bool) (q : Result Unit)
      → P.urls.add_trailing_slash url ≢ url
      → link_identity_to_cluster P ctx x url ignore w ≡ (ok tt, v)
      → remove_identity_to_cluster_link P ctx' x url v ≡ (q, w')
      → (c : Cluster) × (c.url ≡ P.urls.add_trailing_slash url)
        × (P.row w'.store c.cluster_id ≡ some c)
        × (P.linked w'.store x c.cluster_id ≡ true)
        × (q ≢ ok tt)
  link-remove_unslashed ignore (err z) lacks linked removed =
      let (c, at, c_url, joins, _, _) =
        link_identity_to_cluster_ok P L ctx x url w v outside D ignore linked in
      let same : w'.store ≡ v.store =
        remove_identity_to_cluster_link_err P L ctx' x url v w' still_outside z removed in
      (c, c_url, ground (arith, joins.rows c.cluster_id), ground (arith, joins.joined), λ e. cc)
  link-remove_unslashed ignore (ok u) lacks linked removed =
      let (c, at, c_url, joins, strict, _) =
        link_identity_to_cluster_ok P L ctx x url w v outside D ignore linked in
      let (i, d, at', d_url, was, sets, _) =
        remove_identity_to_cluster_link_ok P L ctx' x url v w' still_outside D removed in
      let row_before : P.row w.store i ≡ some d = ground (arith, joins.rows i) in
      absurd (lacks (ground (arith, (clean.normal i d row_before).url_normal)))
