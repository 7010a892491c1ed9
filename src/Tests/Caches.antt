-- ===== src/Tests/Caches.antt =====
-- The cache of src/cache/Cache.cxx with concrete items.
use cm4all_beng_proxy.Common.{
  ℕ, ◌≤◌, ◌<◌, ◌≡◌, refl, Option, none, some, List, [], ◌∷◌, ◌==◌, if◌then◌else◌, arith, count,
  Bool, true, false, not, ◌&&◌, All, Bool-cases, inl, inr, ==_iff, ==_refl, ap, ◌∙◌, erase,
}
use cm4all_beng_proxy.Cache
use cm4all_beng_proxy.Cache.{Cache, contains, add, need_room, remove_all_match}
use cm4all_beng_proxy.Cache.Valid.{IsValid, contains-count}
use cm4all_beng_proxy.Cache.Room.{IsEvicted, need_room-IsEvicted}
use cm4all_beng_proxy.Cache.Match.{HashSet, IsHashSet}
use cm4all_beng_proxy.Cache.Steps.{IsFinder}
use cm4all_beng_proxy.Cache.Reach.{
  Changes, done, more, adds, reached-IsValid, remove_all_match-Removed,
}

-- Every item has the size 10 and its number as its key, and the limit is 25.
abbrev size_of : ℕ → ℕ
size_of i = 10

abbrev key_of : ℕ → ℕ
key_of i = i

abbrev find : List ℕ → ℕ → Option ℕ
find is key = if contains key is then some key else none

find-IsFinder : IsFinder key_of find
find-IsFinder = record { found = λ is key item e. found' is key item e }
  where
    found' :
        (is : List ℕ) (key item : ℕ)
        → find is key ≡ some item
        → (0 < count item is) × (key_of item ≡ key)
    found' is key item e = ground (arith, contains-count key is)

abbrev empty : Cache
empty = Cache.new 25

abbrev one : Cache
one = (add size_of key_of empty 1).1

abbrev two : Cache
two = (add size_of key_of one 2).1

abbrev three : Cache
three = (add size_of key_of two 3).1

three_sorted : three.sorted_items ≡ 2 ∷ 3 ∷ []
unfolding add Cache.add_at Cache.insert need_room Cache.room_loop Cache.destroy_oldest_item
    Cache.oldest Cache.remove_item Cache.item_removed Cache.release Cache.destroy erase
three_sorted = refl

three_destroyed : three.destroyed ≡ 1 ∷ []
unfolding add Cache.add_at Cache.insert need_room Cache.room_loop Cache.destroy_oldest_item
    Cache.oldest Cache.remove_item Cache.item_removed Cache.release Cache.destroy erase
three_destroyed = refl

abbrev first_valid : (ℕ → Bool) → (ℕ → Bool) → ℕ → List ℕ → Option ℕ
first_valid expired match key [] = none
first_valid expired match key (i ∷ is) =
    let rest = first_valid expired match key is in
    if (key_of i == key) && not (expired i) && match i then some i else rest

abbrev with_key : ℕ → (ℕ → Bool) → List ℕ → List ℕ
with_key key pred [] = []
with_key key pred (i ∷ is) =
    let rest = with_key key pred is in if (key_of i == key) && pred i then i ∷ rest else rest

-- All expired items of the key are disposed, whether they come before what is found or not.
abbrev hash_set : HashSet
hash_set = record {
  expire_find_if =
      λ is key expired match. (with_key key expired is, first_valid expired match key is);
  matching_key = λ is key pred. with_key key pred is;
  all_items = λ is. is;
}

count-with_key :
    (key : ℕ) (pred : ℕ → Bool) (is : List ℕ) (i : ℕ)
    → count i (with_key key pred is) ≡ (if (i == key) && pred i then count i is else 0)
unfolding count
count-with_key key pred [] i = ground arith
count-with_key key pred (x ∷ is) i = elim (Bool-cases (i == x)) [
  | inl e ↦
      let same : i ≡ x = (==_iff i x).0 e in
      ground (arith, count-with_key key pred is i, ap pred same)
  | inr e ↦ ground (arith, count-with_key key pred is i)
]

expired-with_key :
    (key : ℕ) (pred : ℕ → Bool) (is : List ℕ) → All (λ i. pred i ≡ true) (with_key key pred is)
expired-with_key key pred [] = tt
expired-with_key key pred (x ∷ is) = go (x == key) (pred x) refl (expired-with_key key pred is)
  where
    go :
        (b c : Bool)
        → pred x ≡ c
        → All (λ i. pred i ≡ true) (with_key key pred is)
        → All
            (λ i. pred i ≡ true)
            (if b && c then x ∷ with_key key pred is else with_key key pred is)
    go true true e a = (e, a)
    go true false e a = a
    go false c e a = a

first_valid-held :
    (expired match : ℕ → Bool) (key : ℕ) (is : List ℕ) (item : ℕ)
    → first_valid expired match key is ≡ some item
    → (0 < count item is) × (item ≡ key) × (match item ≡ true) × (expired item ≡ false)
unfolding count
first_valid-held expired match key [] item e = absurd (cc e)
first_valid-held expired match key (x ∷ is) item e =
    go (x == key) (expired x) (match x) refl refl refl e
      (first_valid-held expired match key is item)
  where
    later :
        (0 < count item is) × (item ≡ key) × (match item ≡ true) × (expired item ≡ false)
        → (0 < count item (x ∷ is)) × (item ≡ key) × (match item ≡ true) × (expired item ≡ false)
    later (h, k, m, n) = (ground arith, k, m, n)

    go :
        (b c d : Bool)
        → (x == key) ≡ b
        → expired x ≡ c
        → match x ≡ d
        → (if b && not c && d then some x else first_valid expired match key is) ≡ some item
        → (first_valid expired match key is ≡ some item
            → (0 < count item is) × (item ≡ key) × (match item ≡ true) × (expired item ≡ false))
        → (0 < count item (x ∷ is)) × (item ≡ key) × (match item ≡ true) × (expired item ≡ false)
    go true false true p q r e rest =
        let same : item ≡ x = cc e in
        (
          ground (arith, ==_refl item, ap (λ k. item == k) same),
          same ∙ (==_iff x key).0 p,
          ap match same ∙ r,
          ap expired same ∙ q,
        )
    go true true d p q r e rest = later (rest e)
    go true false false p q r e rest = later (rest e)
    go false c d p q r e rest = later (rest e)

hash_set-IsHashSet : IsHashSet key_of hash_set
hash_set-IsHashSet = record {
  fewer = λ is key expired match i. ground (arith, count-with_key key expired is i);
  disposed = λ is key expired match. expired-with_key key expired is;
  found = λ is key expired match item e. first_valid-held expired match key is item e;
  matching = λ is key match i. count-with_key key match is i;
  all = λ is i. refl;
}

two-Changes : Changes size_of key_of find hash_set empty two
unfolding add Cache.add_at Cache.insert need_room Cache.room_loop count
two-Changes = more _ _ _ (more _ _ _ (done empty) (adds empty 1 refl refl)) (adds one 2 refl refl)

reached-IsValid_example : IsValid size_of two
reached-IsValid_example =
    reached-IsValid size_of key_of find hash_set find-IsFinder hash_set-IsHashSet 25 two
      (omega arith) two-Changes

two-IsValid : IsValid size_of two
two-IsValid =
    reached-IsValid size_of key_of find hash_set find-IsFinder hash_set-IsHashSet 25 two
      (omega arith) two-Changes

need_room-IsEvicted_example :
    (two.max_size < 10 → need_room size_of key_of two 10 ≡ none)
    × (10 ≤ two.max_size
        → (c' : Cache) × (need_room size_of key_of two 10 ≡ some c')
          × IsEvicted size_of key_of 10 two c')
need_room-IsEvicted_example = need_room-IsEvicted size_of key_of two 10 two-IsValid

remove_all_match-Removed_example :
    IsValid size_of (remove_all_match size_of key_of (λ i. i == 2) two).1
    × ((i : ℕ)
        → count i (remove_all_match size_of key_of (λ i. i == 2) two).1.sorted_items
          ≡ (if i == 2 then 0 else count i two.sorted_items))
remove_all_match-Removed_example =
    remove_all_match-Removed size_of key_of (λ i. i == 2) two two-IsValid
