-- ===== src/Platform/Memory/Working.antt =====
-- In memory every statement succeeds that no constraint forbids.
use fabric8_cluster.Common.{
  ℕ, ◌≡◌, ◌≢◌, none, some, true, ◌∷◌, arith, inl, inr, refl, nat_eq, string_eq, Option-cases,
}
use fabric8_cluster.Model.{Cluster}
use fabric8_cluster.Platform.Tables.{IsWorking}
use fabric8_cluster.Platform.Memory.Rows.{Log, put, at_url, row, free_for, at_url-row}
use fabric8_cluster.Platform.Memory.Statements.{database, allowed, stamped, touched}
use fabric8_cluster.Platform.Memory.Laws.{reliable}

insert_allowed :
    (s : Log) (c : Cluster)
    → row s c.cluster_id ≡ none
    → ((i : ℕ) (d : Cluster) → row s i ≡ some d → d.url ≢ c.url)
    → c.url ≢ ""
    → c.app_dns ≢ ""
    → allowed s c ≡ true
insert_allowed s c fresh none_at url dns = elim (Option-cases (at_url s c.url)) [
  | inl nowhere ↦ ground (arith, fresh, nowhere, url, dns)
  | inr (i, there) ↦ let (d, at, same) = at_url-row s c.url i there in absurd (none_at i d at same)
]

save_free :
    (s : Log) (c : Cluster)
    → ((i : ℕ) (d : Cluster) → row s i ≡ some d → d.url ≡ c.url → i ≡ c.cluster_id)
    → free_for c.cluster_id (at_url s c.url) ≡ true
save_free s c own = elim (Option-cases (at_url s c.url)) [
  | inl nowhere ↦ ground (arith, nowhere)
  | inr (i, there) ↦
      let (d, at, same) = at_url-row s c.url i there in
      let id : i ≡ c.cluster_id = own i d at same in ground (arith, there, id)
]

pub working : IsWorking database
working = record {
  reliable = reliable;
  find_by_url_works = λ s u m e. elim (Option-cases (at_url s u)) [
    | inl nowhere ↦ ground (arith, e, nowhere)
    | inr (i, there) ↦ ground (arith, e, there, Option-cases (row s i))
  ];
  insert_cluster_works = λ s c fresh none_at url dns.
      (stamped c, put (stamped c) ∷ s, rw (insert_allowed s c fresh none_at url dns) refl);
  save_cluster_works =
      λ s c old at own url dns. (touched c, put (touched c) ∷ s, rw (save_free s c own) refl);
}
