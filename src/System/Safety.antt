-- ===== src/System/Safety.antt =====
-- Whatever requests and events come, the service stays in a sound state.
use fabric8_cluster.Common.{
  refl, ℕ, String, Bool, true, Option, none, some, List, [], ◌≡◌, All, ◌||◌, Bool-cases, inl, inr,
}
use fabric8_cluster.Errors.{Error, Result, ok, err}
use fabric8_cluster.Model.{Cluster}
use fabric8_cluster.Platform.{Platform, IsLawful}
use fabric8_cluster.Exec.{World, Exec}
use fabric8_cluster.Exec.Keeping.{Keeps}
use fabric8_cluster.Configuration.Decoding.{decode_clusters}
use fabric8_cluster.Configuration.Files.{
  append_default_config_error_message, Files, ConfigurationData, ReadFile, read_from_json_file,
  take_clusters, append_if_any, configured, init_cluster_config,
}
use fabric8_cluster.Configuration.Files.Laws.{by_url-entries}
use fabric8_cluster.Controller.Clusters
use fabric8_cluster.Controller.Users
use fabric8_cluster.Controller.Data.{
  no_content, error_response, Response, respond, given_or, payload_cluster,
}
use fabric8_cluster.Service.Links
use fabric8_cluster.Service.Invariant.{IsSound}
use fabric8_cluster.Service.Invariant.Saving.{create_or_save_cluster-Keeps, delete-Keeps}
use fabric8_cluster.Service.Invariant.Linking.{
  link_identity_to_cluster-Keeps, remove_identity_to_cluster_link-Keeps,
}
use fabric8_cluster.Service.Invariant.Syncing.{create_or_save_cluster_from_config-Keeps}
use fabric8_cluster.Service.Invariant.Reading.{
  load-Keeps, load_for_auth-Keeps, find_by_url_hidden-Keeps, find_by_url_for_auth-Keeps, list-Keeps,
  list_for_auth-Keeps, list_clusters_for_identity-Keeps,
}
use fabric8_cluster.Service.Watcher.{
  Shared, Event, changed, failure, closed, handle_event, reload_cluster_config, reloaded, values,
}
use fabric8_cluster.System.{
  Request, list, list_for_auth_client, show, show_for_auth_client, create, delete,
  link_identity_to_cluster, remove_identity_to_cluster_link, clusters, serve, Step, served,
  notified, Reach, here, next,
}

-- The service is sound and each configured cluster stands under its own url.
pub record IsSafe (P : Platform) (s : Shared P) : Type 0 where
  pub sound : IsSound P s.world
  pub keyed : All (λ e. e.0 ≡ e.1.url) s.config.clusters

-- Answering changes nothing.
answered :
    {S A B : Type 0} (Q : World S → Type 0) (f : A → Response B) (g : Error → Response B)
    (r : Result A × World S)
    → Q r.1
    → Q (respond f g r).1
answered Q f g (ok a, w) h = h
answered Q f g (err e, w) h = h

module _ (P : Platform) (L : IsLawful P) (href : String → String)
    (parse_uuid : String → ℕ × Bool) where
  with_identity-IsSound :
      (x : String) (m : ℕ → Exec P.State Unit)
      → ((i : ℕ) → Keeps (IsSound P) (m i))
      → (w : World P.State) → IsSound P w
      → IsSound P
          (Clusters.with_identity P parse_uuid x
            (λ i v. respond (λ _. no_content) error_response (m i v))
            w).1
  unfolding Clusters.with_identity
  with_identity-IsSound x m km w h = elim (Bool-cases (parse_uuid x).1) [
    | inl fine ↦ rw fine (
        answered (IsSound P) (λ _. no_content) error_response (m (parse_uuid x).0 w)
          ((km (parse_uuid x).0).after w h))
    | inr bad ↦ rw bad h
  ]

  -- A request is handled, with whatever outcome, in a sound state.
  serve-IsSound :
      (q : Request P) (w : World P.State) → IsSound P w → IsSound P (serve P href parse_uuid q w)
  unfolding serve Clusters.list Clusters.list_for_auth_client Clusters.show
      Clusters.show_for_auth_client Clusters.create Clusters.delete
      Clusters.link_identity_to_cluster Clusters.remove_identity_to_cluster_link Users.clusters
  serve-IsSound (list ctx (some url) type) w h =
      answered (IsSound P) _ _ _ ((find_by_url_hidden-Keeps P L ctx url).after w h)
  serve-IsSound (list ctx none type) w h =
      answered (IsSound P) _ _ _ ((list-Keeps P L ctx type).after w h)
  serve-IsSound (list_for_auth_client ctx (some url) type) w h =
      answered (IsSound P) _ _ _ ((find_by_url_for_auth-Keeps P L ctx url).after w h)
  serve-IsSound (list_for_auth_client ctx none type) w h =
      answered (IsSound P) _ _ _ ((list_for_auth-Keeps P L ctx type).after w h)
  serve-IsSound (show ctx id) w h = answered (IsSound P) _ _ _ ((load-Keeps P L ctx id).after w h)
  serve-IsSound (show_for_auth_client ctx id) w h =
      answered (IsSound P) _ _ _ ((load_for_auth-Keeps P L ctx id).after w h)
  serve-IsSound (create ctx p) w h =
      answered (IsSound P) _ _ _
        ((create_or_save_cluster-Keeps P L ctx (payload_cluster p)).after w h)
  serve-IsSound (delete ctx id) w h =
      answered (IsSound P) _ _ _ ((delete-Keeps P L ctx id).after w h)
  serve-IsSound (link_identity_to_cluster ctx x url ignore) w h =
      with_identity-IsSound x
        (λ i. Links.link_identity_to_cluster P ctx i url (given_or true ignore))
        (λ i. link_identity_to_cluster-Keeps P L ctx i url (given_or true ignore)) w h
  serve-IsSound (remove_identity_to_cluster_link ctx x url) w h =
      with_identity-IsSound x (λ i. Links.remove_identity_to_cluster_link P ctx i url)
        (λ i. remove_identity_to_cluster_link-Keeps P L ctx i url) w h
  serve-IsSound (clusters (ok x)) w h =
      answered (IsSound P) _ _ _ ((list_clusters_for_identity-Keeps P L x).after w h)
  serve-IsSound (clusters (err e)) w h = h

-- A file that is read, rejected or not, leaves every cluster under its own url.
reload-entries :
    (F : Files) (c : ConfigurationData)
    → All (λ e. e.0 ≡ e.1.url) c.clusters
    → All (λ e. e.0 ≡ e.1.url) (reload_cluster_config F c).1.clusters
unfolding reload_cluster_config init_cluster_config append_default_config_error_message
reload-entries F c h =
    from_read (read_from_json_file F "" c.cluster_config_file_path "oso-clusters.conf")
  where
    noted : (m : Option String) → (append_if_any m c).clusters ≡ c.clusters
    noted none = refl
    noted (some m) = refl

    taken :
        (used : String) (r : Result (List Cluster)) (d : ConfigurationData)
        → All (λ e. e.0 ≡ e.1.url) d.clusters
        → All (λ e. e.0 ≡ e.1.url) (take_clusters used r d).2.clusters
    taken used (err x) d k = k
    taken used (ok cs) d k = by_url-entries cs [] tt

    from_read : (r : ReadFile) → All (λ e. e.0 ≡ e.1.url) (configured r c).2.clusters
    from_read (err x, used) = h
    from_read (ok (d, m), used) =
        taken used (decode_clusters d) (append_if_any m c) (rw (noted m) h)

module _ (P : Platform) (L : IsLawful P) where
  reloaded-IsSafe :
      (order : List Cluster → List Cluster) (w : World P.State)
      (r : Result Unit × ConfigurationData)
      → IsSound P w
      → All (λ e. e.0 ≡ e.1.url) r.1.clusters
      → IsSafe P (reloaded P order w r)
  reloaded-IsSafe order w (err e, c) h k = record { sound = h; keyed = k }
  reloaded-IsSafe order w (ok u, c) h k = record {
    sound = (create_or_save_cluster_from_config-Keeps P L (values order c)).after w h;
    keyed = k;
  }

  handle_event-IsSafe :
      (F : Files) (order : List Cluster → List Cluster) (e : Event) (s : Shared P)
      → IsSafe P s
      → IsSafe P (handle_event P F order e s)
  unfolding handle_event
  handle_event-IsSafe F order (changed write removed) s h = elim (Bool-cases (write || removed)) [
    | inl some_bit ↦
        rw some_bit (reloaded-IsSafe order s.world _ h.sound (reload-entries F s.config h.keyed))
    | inr no_bit ↦ rw no_bit h
  ]
  handle_event-IsSafe F order (failure e) s h = h
  handle_event-IsSafe F order closed s h = h

module _ (P : Platform) (L : IsLawful P) (href : String → String)
    (parse_uuid : String → ℕ × Bool) where
  step-IsSafe : (s t : Shared P) → Step P href parse_uuid s t → IsSafe P s → IsSafe P t
  step-IsSafe _ _ (served q s) h = record {
    sound = serve-IsSound P L href parse_uuid q s.world h.sound;
    keyed = h.keyed;
  }
  step-IsSafe _ _ (notified F order e s) h = handle_event-IsSafe P L F order e s h

  -- On a lawful platform: whatever requests are served and whatever events of the watcher are
  -- handled one after the other, with whatever outcome, a service that began in a safe state is in
  -- one: no transaction is running, no row has the nil uuid, every row is normalized, and each
  -- configured cluster stands under its own url.
  pub Reach-IsSafe : (s t : Shared P) → Reach P href parse_uuid s t → IsSafe P s → IsSafe P t
  Reach-IsSafe s _ here h = h
  Reach-IsSafe s u (next {t = t} before step) h = step-IsSafe t u step (Reach-IsSafe s t before h)
