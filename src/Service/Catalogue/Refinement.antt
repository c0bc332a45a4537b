-- ===== src/Service/Catalogue/Refinement.antt =====
-- The methods of the service implement the catalogue.
use fabric8_cluster.Common.{refl, List, [], ◌∷◌}
use fabric8_cluster.Platform.{Platform, IsLawful}
use fabric8_cluster.Platform.Tables.{IsDurable}
use fabric8_cluster.Exec.{World}
use fabric8_cluster.Service.Invariant.{IsSound}
use fabric8_cluster.Service.Invariant.Saving.{create_or_save_cluster-Keeps, delete-Keeps}
use fabric8_cluster.Service.Invariant.Linking.{
  link_identity_to_cluster-Keeps, remove_identity_to_cluster_link-Keeps,
}
use fabric8_cluster.Service.Invariant.Reading.{find_by_url_for_auth-Keeps}
use fabric8_cluster.Service.Catalogue.{
  Catalogue, Call, save, drop, look_up, link, unlink, perform, trace, Allows, Allowed, ended,
  then_on,
}
use fabric8_cluster.Service.Catalogue.Rows.{Represents}
use fabric8_cluster.Service.Catalogue.Matching.{save-Matched, drop-Matched, look_up-Matched}
use fabric8_cluster.Service.Catalogue.Linking.{link-Matched, unlink-Matched}

module _ (P : Platform) (L : IsLawful P) where
  pub perform-IsSound : (q : Call P) (w : World P.State) → IsSound P w → IsSound P (perform P q w).1
  unfolding perform
  perform-IsSound (save ctx c) w h = (create_or_save_cluster-Keeps P L ctx c).after w h
  perform-IsSound (drop ctx id) w h = (delete-Keeps P L ctx id).after w h
  perform-IsSound (look_up ctx url) w h = (find_by_url_for_auth-Keeps P L ctx url).after w h
  perform-IsSound (link ctx x url ignore) w h =
      (link_identity_to_cluster-Keeps P L ctx x url ignore).after w h
  perform-IsSound (unlink ctx x url) w h =
      (remove_identity_to_cluster_link-Keeps P L ctx x url).after w h

module _ (P : Platform) (L : IsLawful P) (D : IsDurable P.db) where
  pub perform-Matched :
      (q : Call P) (k : Catalogue) (w : World P.State)
      → IsSound P w
      → Represents P w.store k
      → (k' : Catalogue) × Allows P k q (perform P q w).0 k'
        × Represents P (perform P q w).1.store k'
  unfolding perform
  perform-Matched (save ctx c) k w h rep = save-Matched P L D k w _ h rep ctx c _ refl
  perform-Matched (drop ctx id) k w h rep = drop-Matched P L D k w _ h rep ctx id _ refl
  perform-Matched (look_up ctx url) k w h rep = look_up-Matched P L D k w _ h rep ctx url _ refl
  perform-Matched (link ctx x url ignore) k w h rep =
      link-Matched P L D k w _ h rep ctx x url ignore _ refl
  perform-Matched (unlink ctx x url) k w h rep = unlink-Matched P L D k w _ h rep ctx x url _ refl

  -- On a lawful platform where commits succeed, in a sound state whose tables hold exactly the
  -- clusters and links of a catalogue: whatever calls of create_or_save_cluster, delete,
  -- find_by_url_for_auth, link_identity_to_cluster and remove_identity_to_cluster_link come one
  -- after the other, their answers are answers that the catalogue allows. A save answers with a
  -- valid, normalized cluster that takes the place of the one at its url and keeps that one's id
  -- and creation time, or gets an id of its own; a deletion that succeeds takes out the cluster
  -- with the id and its links; a lookup that succeeds gives the cluster at the url with its slash;
  -- linking joins the identity to that cluster, and unlinking parts it from the cluster at exactly
  -- the url, to which it was linked; a call that fails changes nothing, and a deletion or a lookup
  -- fails with "not found" only if there is no such cluster.
  pub trace-Allowed :
      (qs : List (Call P)) (k : Catalogue) (w : World P.State)
      → IsSound P w
      → Represents P w.store k
      → Allowed P k (trace P qs w)
  unfolding trace
  trace-Allowed [] k w h rep = ended k
  trace-Allowed (q ∷ qs) k w h rep =
      let (k', allows, rep') = perform-Matched q k w h rep in
      then_on q _ k k' _ allows (trace-Allowed qs k' _ (perform-IsSound P L q w h) rep')
