-- ===== src/Platform/Memory/Rows.antt =====
-- The tables that a log stands for, and their constraints.
use fabric8_cluster.Common.{
  ℕ, String, Bool, true, false, ◌&&◌, Option, none, some, List, [], ◌∷◌, ◌≡◌, ◌≢◌, arith, refl,
  Option-cases,
}
use fabric8_cluster.Common.{◌==◌, nat_eq, string_eq, if◌then◌else◌}
use fabric8_cluster.Model.{Cluster}

pub data Change : Type 0 where
  put : Cluster → Change
  drop : ℕ → Change
  link unlink : ℕ → ℕ → Change

abbrev pub Log : Type 0
Log = List Change

abbrev is_id : ℕ → Option ℕ → Bool
is_id i none = false
is_id i (some j) = j == i

-- No other row than `i` has the url.
abbrev pub free_for : ℕ → Option ℕ → Bool
free_for i none = true
free_for i (some j) = j == i

-- The id of the row at a url: the unique index. A row is put only if its url is free.
abbrev pub at_url : Log → String → Option ℕ
at_url [] u = none
at_url (put c ∷ s) u =
    if free_for c.cluster_id (at_url s c.url)
    then (if u == c.url
        then some c.cluster_id
        else if is_id c.cluster_id (at_url s u)
        then none
        else at_url s u)
    else at_url s u
at_url (drop i ∷ s) u = if is_id i (at_url s u) then none else at_url s u
at_url (_ ∷ s) u = at_url s u

abbrev pub row : Log → ℕ → Option Cluster
row [] i = none
row (put c ∷ s) i =
    if free_for c.cluster_id (at_url s c.url) && i == c.cluster_id then some c else row s i
row (drop j ∷ s) i = if i == j then none else row s i
row (_ ∷ s) i = row s i

abbrev pub is_some : {A : Type 0} → Option A → Bool
is_some none = false
is_some (some a) = true

abbrev pub linked : Log → ℕ → ℕ → Bool
linked [] x i = false
linked (link y j ∷ s) x i = if (x == y && i == j) && is_some (row s j) then true else linked s x i
linked (unlink y j ∷ s) x i = if x == y && i == j then false else linked s x i
linked (drop j ∷ s) x i = if i == j then false else linked s x i
linked (put c ∷ s) x i = linked s x i

pub row-cluster_id : (s : Log) (i : ℕ) (c : Cluster) → row s i ≡ some c → c.cluster_id ≡ i
row-cluster_id [] i c e = cc
row-cluster_id (put d ∷ s) i c e = ground (arith, row-cluster_id s i c)
row-cluster_id (drop j ∷ s) i c e = ground (arith, row-cluster_id s i c)
row-cluster_id (link x j ∷ s) i c e = row-cluster_id s i c e
row-cluster_id (unlink x j ∷ s) i c e = row-cluster_id s i c e

-- The index and the rows agree.
pub row-at_url : (s : Log) (i : ℕ) (c : Cluster) → row s i ≡ some c → at_url s c.url ≡ some i
row-at_url [] i c e = cc
row-at_url (put d ∷ s) i c e = ground (arith, row-at_url s i c)
row-at_url (drop j ∷ s) i c e = ground (arith, row-at_url s i c)
row-at_url (link x j ∷ s) i c e = row-at_url s i c e
row-at_url (unlink x j ∷ s) i c e = row-at_url s i c e

abbrev is_at : String → Option Cluster → Bool
is_at u none = false
is_at u (some c) = c.url == u

at_url-is_at : (s : Log) (u : String) (i : ℕ) → at_url s u ≡ some i → is_at u (row s i) ≡ true
at_url-is_at [] u i e = absurd (cc)
at_url-is_at (put d ∷ s) u i e =
    ground (arith, at_url-is_at s u i, Option-cases (at_url s u), Option-cases (at_url s d.url))
at_url-is_at (drop j ∷ s) u i e = ground (arith, at_url-is_at s u i, Option-cases (at_url s u))
at_url-is_at (link x j ∷ s) u i e = at_url-is_at s u i e
at_url-is_at (unlink x j ∷ s) u i e = at_url-is_at s u i e

is_at-url :
    (u : String) (o : Option Cluster)
    → is_at u o ≡ true
    → (c : Cluster) × (o ≡ some c) × (c.url ≡ u)
is_at-url u none e = absurd (cc)
is_at-url u (some c) e = (c, refl, ground arith)

pub at_url-row :
    (s : Log) (u : String) (i : ℕ)
    → at_url s u ≡ some i
    → (c : Cluster) × (row s i ≡ some c) × (c.url ≡ u)
at_url-row s u i e = is_at-url u (row s i) (at_url-is_at s u i e)

pub linked-row : (s : Log) (x i : ℕ) → linked s x i ≡ true → row s i ≢ none
linked-row [] x i e = cc
linked-row (put d ∷ s) x i e = ground (arith, linked-row s x i)
linked-row (drop j ∷ s) x i e = ground (arith, linked-row s x i)
linked-row (link y j ∷ s) x i e = ground (arith, linked-row s x i)
linked-row (unlink y j ∷ s) x i e = ground (arith, linked-row s x i)
