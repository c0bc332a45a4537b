-- ===== src/Repository/Clusters/Invariant.antt =====
-- The invariant of the table of clusters, kept by every method of the repository.
use native.Mathlib.Decide.{ℕ_discrete}
use fabric8_cluster.Common.{ℕ, ◌≡◌, ◌≢◌, none, some, arith}
use fabric8_cluster.Common.{nat_eq}
use fabric8_cluster.Errors.{Result, ok, err}
use fabric8_cluster.Model.{Cluster, nil_uuid}
use fabric8_cluster.Platform.{Platform, IsLawful}
use fabric8_cluster.Exec.{World}
use fabric8_cluster.Repository.Normalize.Laws.{IsNormal, normalize-IsNormal}
use fabric8_cluster.Repository.Clusters.{create_or_save, delete}
use fabric8_cluster.Repository.Clusters.Upsert.{Puts, create_or_save_ok, create_or_save_err}
use fabric8_cluster.Repository.Clusters.Deletion.{Removes, delete-Removes, delete_refused}

module _ (P : Platform) where
  -- No row has the nil uuid for its id, and every row is normalized.
  pub record IsClean (s : P.State) : Type 0 where
    pub no_nil : P.row s nil_uuid ≡ none
    pub normal : (i : ℕ) (c : Cluster) → P.row s i ≡ some c → IsNormal P.urls c

module _ (P : Platform) (L : IsLawful P) where
  Puts-IsClean :
      (s t : P.State) (c r : Cluster)
      → IsClean P s
      → Puts P s t c r
      → r.cluster_id ≢ nil_uuid
      → IsClean P t
  Puts-IsClean s t c r clean puts id = record {
    no_nil = ground (arith, puts.stored nil_uuid, clean.no_nil);
    normal = λ i d at. elim (ℕ_discrete i r.cluster_id) [
      | yes same ↦
          let e : r ≡ d = ground (arith, puts.stored i) in
          rw e at (normalize-IsNormal P.urls L.urls _ r puts.content)
      | no other ↦ clean.normal i d (ground (arith, puts.stored i))
    ];
  }

  pub Removes-IsClean : (s t : P.State) (i : ℕ) → IsClean P s → Removes P s t i → IsClean P t
  Removes-IsClean s t i clean removes = record {
    no_nil = ground (arith, removes.rows nil_uuid, clean.no_nil);
    normal = λ j d at. clean.normal j d (ground (arith, removes.rows j));
  }

  -- On a lawful platform create_or_save, whether it succeeds or not, keeps the table clean: no row
  -- has the nil uuid, and every row is normalized.
  pub create_or_save-IsClean :
      (c : Cluster) (w : World P.State) (q : Result Cluster) (w' : World P.State)
      → create_or_save P c w ≡ (q, w')
      → IsClean P w.store
      → IsClean P w'.store
  create_or_save-IsClean c w (ok r) w' e clean =
      let (puts, origin) = create_or_save_ok P L.reading L.writing c r w w' e in
      Puts-IsClean w.store w'.store c r clean puts
        (ground (arith, clean.no_nil, L.new_v4-ne-nil w.drawn))
  create_or_save-IsClean c w (err x) w' e clean =
      rw (create_or_save_err P L.reading L.writing c x w w' e) clean

  -- On a lawful platform the repository's delete, whether it succeeds or not, keeps the table
  -- clean.
  pub delete-IsClean :
      (i : ℕ) (w : World P.State) (q : Result Unit) (w' : World P.State)
      → delete P i w ≡ (q, w')
      → IsClean P w.store
      → IsClean P w'.store
  delete-IsClean i w (ok u) w' e clean =
      Removes-IsClean w.store w'.store i clean (delete-Removes P L i w w' clean.no_nil e)
  delete-IsClean i w (err x) w' e clean = rw ((delete_refused P L i w w' clean.no_nil x e).0) clean
