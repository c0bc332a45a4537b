-- ===== src/Platform/Memory/Laws.antt =====
-- The database in memory meets the assumptions on a database.
use fabric8_cluster.Common.{
  ℕ, String, true, false, ◌&&◌, Option, none, some, List, [], ◌∷◌, ◌≡◌, ◌≢◌, ◌⊎◌, inl, inr, arith,
  refl, sym, subst, Option-cases, Bool-cases,
}
use fabric8_cluster.Common.{Among, ◌==◌, nat_eq, string_eq, if◌then◌else◌}
use fabric8_cluster.Errors.{done}
use fabric8_cluster.Model.{Cluster}
use fabric8_cluster.Platform.Tables.{
  IsReading, IsWriting, IsConstrained, IsListing, IsTransactional, IsReliable, Distinct,
}
use fabric8_cluster.Platform.Memory.Rows.{
  Log, put, drop, link, unlink, at_url, row, linked, is_some, free_for, row-cluster_id, row-at_url,
  at_url-row, linked-row,
}
use fabric8_cluster.Platform.Memory.Statements.{
  row_of, insert_cluster, save_cluster, insert_link, unlink_at, without, rows_of, allowed, stamped,
  touched, one_if, database,
}

row_of-done :
    (s : Log) (u : String) (c : Cluster) (o : Option ℕ)
    → at_url s u ≡ o
    → row_of s o ≡ done c
    → (row s c.cluster_id ≡ some c) × (c.url ≡ u)
row_of-done s u c none at e = absurd (cc)
row_of-done s u c (some i) at e =
    let (d, r, same) = at_url-row s u i at in
    ground (arith, r, same, row-cluster_id s i d r, Option-cases (row s i))

pub reading : IsReading database
reading = record {
  find_by_id_done = λ s i c e. ground (arith, Option-cases (row s i));
  find_by_id_missing = λ s i e. ground (arith, Option-cases (row s i));
  find_by_url_done = λ s u c e. row_of-done s u c (at_url s u) refl e;
  find_by_url_missing = λ s u i c e r same. ground (arith, row-at_url s i c r);
  find_link_done = λ s x i l e. ground (arith, Bool-cases (linked s x i));
  find_link_missing = λ s x i e.
      ground (arith, Bool-cases (linked s x i), Option-cases (row s i), linked-row s x i);
}

pub constrained : IsConstrained database
constrained = record {
  primary_key = row-cluster_id;
  unique_url = λ s i j c d r q same. ground (arith, row-at_url s i c r, row-at_url s j d q);
  foreign_key = linked-row;
}

insert_cluster-allowed :
    (s t : Log) (c r : Cluster)
    → insert_cluster s c ≡ (done r, t)
    → (allowed s c ≡ true) × (r ≡ stamped c) × (t ≡ put (stamped c) ∷ s)
insert_cluster-allowed s t c r e = ground (arith, Bool-cases (allowed s c))

save_cluster-free :
    (s t : Log) (c r : Cluster)
    → save_cluster s c ≡ (done r, t)
    → (free_for c.cluster_id (at_url s c.url) ≡ true) × (r ≡ touched c) × (t ≡ put (touched c) ∷ s)
save_cluster-free s t c r e = ground (arith, Bool-cases (free_for c.cluster_id (at_url s c.url)))

put_row :
    (s : Log) (c : Cluster) (j : ℕ)
    → free_for c.cluster_id (at_url s c.url) ≡ true
    → row (put c ∷ s) j ≡ (if j == c.cluster_id then some c else row s j)
put_row s c j free = ground arith

insert_link-allowed :
    (s t : Log) (x i : ℕ)
    → insert_link s x i ≡ (done tt, t)
    → (linked s x i ≡ false) × (is_some (row s i) ≡ true) × (t ≡ link x i ∷ s)
insert_link-allowed s t x i e = ground (arith, Bool-cases (linked s x i), Option-cases (row s i))

unlink_at-done :
    (s : Log) (x n : ℕ) (u : String) (t : Log) (o : Option ℕ)
    → at_url s u ≡ o
    → unlink_at s x o ≡ (done n, t)
    → ((n ≡ 0)
        × (t ≡ s)
        × ((i : ℕ) (c : Cluster) → row s i ≡ some c → c.url ≡ u → linked s x i ≡ false))
      ⊎ ((i : ℕ) × (c : Cluster) × (n ≢ 0)
          × (row s i ≡ some c)
          × (c.url ≡ u)
          × (linked s x i ≡ true)
          × ((j : ℕ) → row t j ≡ row s j)
          × ((y j : ℕ) → linked t y j ≡ (if y == x && j == i then false else linked s y j)))
unlink_at-done s x n u t none at e =
    inl (ground arith, ground arith, λ i c r same. ground (arith, row-at_url s i c r))
unlink_at-done s x n u t (some i) at e =
    let (d, r, same) = at_url-row s u i at in
    elim (Bool-cases (linked s x i)) [
      | inl l ↦ inr (i, d, ground arith, r, same, l, (λ j. ground arith), λ y j. ground arith)
      | inr l ↦ inl (ground arith, ground arith, λ j c q at'. ground (arith, row-at_url s j c q))
    ]

pub writing : IsWriting database
writing = record {
  insert_cluster_done = λ s c r t e.
      let (fine, a, b) = insert_cluster-allowed s t c r e in
      (rw (a, b)
        (
          refl,
          ground (arith, Option-cases (row s c.cluster_id)),
          (λ j. put_row s (stamped c) j (ground (arith, Option-cases (at_url s c.url)))),
          λ x j. refl,
        ));
  insert_cluster_failed = λ s c r t e. ground arith;
  save_cluster_done = λ s c r old t q e.
      let (free, a, b) = save_cluster-free s t c r e in
      (rw (a, b) (refl, (λ j. put_row s (touched c) j free), λ x j. refl));
  save_cluster_failed = λ s c r t e. ground arith;
  delete_cluster_done = λ s i n t h e. ground (arith, Option-cases (row s i));
  delete_cluster_failed = λ s i r t e. ground arith;
  insert_link_done = λ s x i t e.
      let (free, there, b) = insert_link-allowed s t x i e in
      (rw b (free, (λ j. refl), λ y j. ground arith));
  insert_link_failed = λ s x i r t e. ground arith;
  delete_link_done = λ s x n u t e. unlink_at-done s x n u t (at_url s u) refl e;
  delete_link_failed = λ s x u r t e. ground (arith, Option-cases (at_url s u));
}

without-Among :
    (i : ℕ) (c : Cluster) (cs : List Cluster)
    → Among c (without i cs)
    → Among c cs × (c.cluster_id ≢ i)
without-Among i c [] h = absurd h
without-Among i c (d ∷ cs) h = ground (arith, without-Among i c cs)

Among-without :
    (i : ℕ) (c : Cluster) (cs : List Cluster)
    → Among c cs
    → c.cluster_id ≢ i
    → Among c (without i cs)
Among-without i c [] h n = h
Among-without i c (d ∷ cs) h n = ground (arith, Among-without i c cs)

without-Distinct : (i : ℕ) (cs : List Cluster) → Distinct cs → Distinct (without i cs)
without-Distinct i [] h = tt
without-Distinct i (d ∷ cs) (h, k) = elim (Bool-cases (d.cluster_id == i)) [
  | inl e ↦ rw e (without-Distinct i cs k)
  | inr e ↦ rw e ((λ c m. h c (without-Among i c cs m).0), without-Distinct i cs k)
]

rows_of-row : (s : Log) (c : Cluster) → Among c (rows_of s) → row s c.cluster_id ≡ some c
rows_of-row [] c h = absurd h
rows_of-row (put d ∷ s) c h = ground (
  arith,
  rows_of-row s c,
  without-Among d.cluster_id c (rows_of s),
  Bool-cases (free_for d.cluster_id (at_url s d.url)),
)
rows_of-row (drop i ∷ s) c h = ground (arith, rows_of-row s c, without-Among i c (rows_of s))
rows_of-row (link x i ∷ s) c h = rows_of-row s c h
rows_of-row (unlink x i ∷ s) c h = rows_of-row s c h

row-rows_of : (s : Log) (i : ℕ) (c : Cluster) → row s i ≡ some c → Among c (rows_of s)
row-rows_of [] i c h = absurd (cc)
row-rows_of (put d ∷ s) i c h = ground (
  arith,
  row-rows_of s i c,
  row-cluster_id s i c,
  Among-without d.cluster_id c (rows_of s),
  Bool-cases (free_for d.cluster_id (at_url s d.url)),
)
row-rows_of (drop j ∷ s) i c h =
    ground (arith, row-rows_of s i c, row-cluster_id s i c, Among-without j c (rows_of s))
row-rows_of (link x j ∷ s) i c h = row-rows_of s i c h
row-rows_of (unlink x j ∷ s) i c h = row-rows_of s i c h

rows_of-Distinct : (s : Log) → Distinct (rows_of s)
rows_of-Distinct [] = tt
rows_of-Distinct (put d ∷ s) = elim (Bool-cases (free_for d.cluster_id (at_url s d.url))) [
  | inl e ↦ rw e (
    (λ c m same. (without-Among d.cluster_id c (rows_of s) m).1 (sym same)),
    without-Distinct d.cluster_id (rows_of s) (rows_of-Distinct s),
  )
  | inr e ↦ rw e (rows_of-Distinct s)
]
rows_of-Distinct (drop i ∷ s) = without-Distinct i (rows_of s) (rows_of-Distinct s)
rows_of-Distinct (link x i ∷ s) = rows_of-Distinct s
rows_of-Distinct (unlink x i ∷ s) = rows_of-Distinct s

pub listing : IsListing database
listing = record {
  find_all_sound = λ s cs c e m. rows_of-row s c (subst (λ l. Among c l) (ground arith) m);
  find_all_complete = λ s cs i c e r. subst (λ l. Among c l) (ground arith) (row-rows_of s i c r);
  find_all_once = λ s cs e. subst Distinct (ground arith) (rows_of-Distinct s);
  find_all_missing = λ s i e. absurd (cc);
}

pub transactional : IsTransactional database
transactional = record {
  rollback_back = λ s t. refl;
  commit_done = λ s t u e. ground arith;
  commit_failed = λ s t u d e. absurd (ground arith);
}

pub reliable : IsReliable database
reliable = record {
  durable = record { commit_works = λ s t. refl };
  begin_works = λ s. refl;
  set_isolation_works = λ s level. refl;
  in_time = λ s t. refl;
  find_by_id_works = λ s i m e. ground (arith, Option-cases (row s i));
  delete_cluster_works = λ s i. (one_if (is_some (row s i)), drop i ∷ s, refl);
}
