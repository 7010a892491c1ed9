-- ===== src/Tests/Headers.antt =====
-- A map of strings, and the HTTP cache's rules on concrete requests and responses.
use cm4all_beng_proxy.Common.{
  ◌≡◌, refl, sym, ◌⊎◌, inl, inr, ℕ, suc, Option, none, some, [], ◌∷◌, ◌++◌, codes, Bytes,
  if◌then◌else◌, Bool-cases, append-nil,
}
use cm4all_beng_proxy.StringMap.{Item, StringMap, Trie, get, set, secure_set, remove_all}
use cm4all_beng_proxy.StringMap.Laws.{IsTrie, KeyAt, Missing, Keyed, Distinct}
use cm4all_beng_proxy.StringMap.Set.{set-get}
use cm4all_beng_proxy.Tests.Merges.{bytes_eq, eq_bytes, bytes_eq_refl}

abbrev next_place : Option ℕ → Option ℕ
next_place none = none
next_place (some n) = some (suc n)

abbrev find_place : StringMap → Bytes → Option ℕ
find_place [] k = none
find_place (i ∷ m) k =
    let rest = next_place (find_place m k) in if bytes_eq i.key k then some 0 else rest

abbrev keyed_items : StringMap → Bytes → StringMap
keyed_items [] k = []
keyed_items (i ∷ m) k = let rest = keyed_items m k in if bytes_eq i.key k then i ∷ rest else rest

abbrev other_items : StringMap → Bytes → StringMap
other_items [] k = []
other_items (i ∷ m) k = let rest = other_items m k in if bytes_eq i.key k then rest else i ∷ rest

-- A trie with its items in the order in which they were inserted.
abbrev pub list_trie : Trie
list_trie = record {
  equal = bytes_eq;
  find = find_place;
  equal_range = keyed_items;
  insert = λ i m. m ++ i ∷ [];
  remove_key = λ m k. (keyed_items m k, other_items m k);
}

place_cases :
    (m : StringMap) (k : Bytes)
    → ((find_place m k ≡ none) × Missing list_trie k m)
      ⊎ ((n : ℕ) × (find_place m k ≡ some n) × KeyAt list_trie k m n)
place_cases [] k = inl (refl, tt)
place_cases (i ∷ m) k = elim (Bool-cases (bytes_eq i.key k)) [
  | inl e ↦ inr (0, rw e refl, e)
  | inr e ↦ elim (place_cases m k) [
    | inl (f, a) ↦ inl (rw (e, f) refl, (e, a))
    | inr (n, f, h) ↦ inr (suc n, rw (e, f) refl, h)
  ]
]

keyed : (m : StringMap) (k : Bytes) → Keyed list_trie k (keyed_items m k)
keyed [] k = tt
keyed (i ∷ m) k = elim (Bool-cases (bytes_eq i.key k)) [
  | inl e ↦ rw e (e, keyed m k)
  | inr e ↦ rw e (keyed m k)
]

missing : (m : StringMap) (k : Bytes) → Missing list_trie k (other_items m k)
missing [] k = tt
missing (i ∷ m) k = elim (Bool-cases (bytes_eq i.key k)) [
  | inl e ↦ rw e (missing m k)
  | inr e ↦ rw e (e, missing m k)
]

none_of :
    (o : Option ℕ) (m : StringMap) (k : Bytes)
    → ((o ≡ none) × Missing list_trie k m) ⊎ ((n : ℕ) × (o ≡ some n) × KeyAt list_trie k m n)
    → o ≡ none
    → Missing list_trie k m
none_of o m k (inl (f, a)) e = a
none_of o m k (inr (n, f, h)) e = absurd (cc (e, f))

some_of :
    (o : Option ℕ) (m : StringMap) (k : Bytes) (p : ℕ)
    → ((o ≡ none) × Missing list_trie k m) ⊎ ((n : ℕ) × (o ≡ some n) × KeyAt list_trie k m n)
    → o ≡ some p
    → KeyAt list_trie k m p
some_of o m k p (inl (f, a)) e = absurd (cc (e, f))
some_of o m k p (inr (n, f, h)) e = let same : p ≡ n = cc (e, f) in rw same h

pub list_trie-IsTrie : IsTrie list_trie
list_trie-IsTrie = record {
  equal_iff = λ a b. (eq_bytes a b, λ e. rw e (bytes_eq_refl b));
  found_none = λ m k. none_of (find_place m k) m k (place_cases m k);
  found_some = λ m k n. some_of (find_place m k) m k n (place_cases m k);
  inserted = λ i m. (m, [], sym (append-nil m), refl);
  disposed = keyed;
  left = missing;
}

abbrev pub item : Bytes → Bytes → Item
item k v = record { key = k; value = v }

abbrev pub request_headers : StringMap
request_headers =
    item (codes "accept-encoding") (codes "gzip")
    ∷ item (codes "cookie") (codes "a=b")
    ∷ item (codes "host") (codes "localhost")
    ∷ []

set-get_example :
    Distinct list_trie (set list_trie (codes "cookie") (codes "c=d") request_headers).0
    × (get list_trie
          (set list_trie (codes "cookie") (codes "c=d") request_headers).0
          (codes "cookie")
        ≡ (if list_trie.equal (codes "cookie") (codes "cookie")
            then some (codes "c=d")
            else get list_trie request_headers (codes "cookie")))
    × ((set list_trie (codes "cookie") (codes "c=d") request_headers).1
        ≡ get list_trie request_headers (codes "cookie"))
set-get_example =
    set-get list_trie list_trie-IsTrie (codes "cookie") (codes "c=d") request_headers
      (codes "cookie") ((refl, (refl, tt)), ((refl, tt), (tt, tt)))

replaced_twice :
    secure_set list_trie (codes "b") (some (codes "9")) (
      item (codes "b") (codes "1")
      ∷ item (codes "a") (codes "2")
      ∷ item (codes "b") (codes "3")
      ∷ [])
    ≡ item (codes "a") (codes "2") ∷ item (codes "b") (codes "9") ∷ []
unfolding secure_set
replaced_twice = refl

removed_all :
    (remove_all list_trie (codes "b") (
      item (codes "b") (codes "1")
      ∷ item (codes "a") (codes "2")
      ∷ item (codes "b") (codes "3")
      ∷ [])).1
    ≡ some (codes "3")
unfolding remove_all
removed_all = refl
