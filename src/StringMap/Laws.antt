-- ===== src/StringMap/Laws.antt =====
-- What src/strmap.cxx relies on in the trie of libcommon, and what one finds in a list of items.
use cm4all_beng_proxy.Common.{
  ℕ, zero, suc, Bool, true, false, Option, none, some, [], ◌∷◌, ◌++◌, Bytes, if◌then◌else◌, ◌≡◌,
  ◌≢◌, ◌↔◌, refl, sym, ◌∙◌, inl, inr, All, Bool-cases, Option-cases,
}
use cm4all_beng_proxy.StringMap.{Item, StringMap, Trie, value_at, store_at, found_value, get}

abbrev pub IsEqualText : (Bytes → Bytes → Bool) → Type 0
IsEqualText eq = (a b : Bytes) → (eq a b ≡ true) ↔ (a ≡ b)

module _ (t : Trie) where
  -- no item has the key
  abbrev pub Missing : Bytes → StringMap → Type 0
  Missing k = All (λ i. t.equal i.key k ≡ false)

  abbrev pub Keyed : Bytes → StringMap → Type 0
  Keyed k = All (λ i. t.equal i.key k ≡ true)

  -- there is an item at the place, and it has the key
  abbrev pub KeyAt : Bytes → StringMap → ℕ → Type 0
  KeyAt k [] n = ⊥
  KeyAt k (i ∷ m) zero = t.equal i.key k ≡ true
  KeyAt k (i ∷ m) (suc n) = KeyAt k m n

  abbrev pub IsInserted : Item → StringMap → StringMap → Type 0
  IsInserted i m m' = (a b : StringMap) × (m ≡ a ++ b) × (m' ≡ a ++ i ∷ b)

  -- The documented behaviour: strings are compared byte by byte; an item is found if there is one,
  -- in any place; a new item goes anywhere between the others; removing a key leaves none of it.
  pub record IsTrie : Type 0 where
    pub equal_iff : IsEqualText t.equal
    pub found_none : (m : StringMap) (k : Bytes) → t.find m k ≡ none → Missing k m
    pub found_some : (m : StringMap) (k : Bytes) (n : ℕ) → t.find m k ≡ some n → KeyAt k m n
    pub inserted : (i : Item) (m : StringMap) → IsInserted i m (t.insert i m)
    pub disposed : (m : StringMap) (k : Bytes) → Keyed k (t.remove_key m k).0
    pub left : (m : StringMap) (k : Bytes) → Missing k (t.remove_key m k).1

  -- no two items have one key
  abbrev pub Distinct : StringMap → Type 0
  Distinct [] = Unit
  Distinct (i ∷ m) = Missing i.key m × Distinct m

  -- The value of the first item with the key.
  unfoldable pub lookup : StringMap → Bytes → Option Bytes
  lookup [] k = none
  lookup (i ∷ m) k = let rest = lookup m k in if t.equal i.key k then some i.value else rest

module _ (t : Trie) (laws : IsTrie t) where
  equal_true : (a b : Bytes) → a ≡ b → t.equal a b ≡ true
  equal_true a b = (laws.equal_iff a b).1

  pub equal_refl : (a : Bytes) → t.equal a a ≡ true
  equal_refl a = equal_true a a refl

  pub equal_false : (a b : Bytes) → a ≢ b → t.equal a b ≡ false
  equal_false a b n = elim (Bool-cases (t.equal a b)) [
    | inl e ↦ absurd (n ((laws.equal_iff a b).0 e))
    | inr e ↦ e
  ]

  pub equal_sym : (a b : Bytes) → t.equal a b ≡ false → t.equal b a ≡ false
  equal_sym a b e = elim (Bool-cases (t.equal b a)) [
    | inl f ↦ absurd (cc (e, equal_true a b (sym ((laws.equal_iff b a).0 f))))
    | inr f ↦ f
  ]

  -- Two keys, of which one is the third and the other is not.
  pub equal_other : (a b k : Bytes) → t.equal a k ≡ true → t.equal a b ≡ false → t.equal b k ≡ false
  equal_other a b k e f = rw (sym ((laws.equal_iff a k).0 e)) (equal_sym a b f)

  pub lookup-Missing : (m : StringMap) (k : Bytes) → Missing t k m → lookup t m k ≡ none
  unfolding lookup
  lookup-Missing [] k a = refl
  lookup-Missing (i ∷ m) k (p, a) = rw p (lookup-Missing m k a)

  Missing-KeyAt :
      (m : StringMap) (k : Bytes) (n : ℕ) (other : Bytes)
      → Missing t other m
      → KeyAt t k m n
      → t.equal k other ≡ false
  Missing-KeyAt (i ∷ m) k zero other (p, a) h = elim (Bool-cases (t.equal k other)) [
    | inl e ↦ absurd (
        cc
          (p, equal_true i.key other ((laws.equal_iff i.key k).0 h ∙ (laws.equal_iff k other).0 e)))
    | inr e ↦ e
  ]
  Missing-KeyAt (i ∷ m) k (suc n) other (p, a) h = Missing-KeyAt m k n other a h
  Missing-KeyAt [] k n other a h = absurd h

  value_at-lookup :
      (m : StringMap) (k : Bytes) (n : ℕ)
      → Distinct t m
      → KeyAt t k m n
      → value_at m n ≡ lookup t m k
  unfolding value_at lookup
  value_at-lookup [] k n d h = absurd h
  value_at-lookup (i ∷ m) k zero (p, d) h = rw h refl
  value_at-lookup (i ∷ m) k (suc n) (p, d) h =
      rw (equal_sym k i.key (Missing-KeyAt m k n i.key p h)) (value_at-lookup m k n d h)

  -- Without two items of one key, `get` gives the one.
  pub get-lookup : (m : StringMap) (k : Bytes) → Distinct t m → get t m k ≡ lookup t m k
  unfolding get found_value
  get-lookup m k d = elim (Option-cases (t.find m k)) [
    | inl e ↦ rw e (sym (lookup-Missing m k (laws.found_none m k e)))
    | inr (n, e) ↦ rw e (value_at-lookup m k n d (laws.found_some m k n e))
  ]

  pub lookup-middle :
      (i : Item) (a b : StringMap) (k : Bytes)
      → Missing t i.key (a ++ b)
      → lookup t (a ++ i ∷ b) k ≡ (if t.equal i.key k then some i.value else lookup t (a ++ b) k)
  unfolding lookup
  lookup-middle i [] b k p = refl
  lookup-middle i (j ∷ a) b k (q, p) = elim (Bool-cases (t.equal i.key k)) [
    | inl e ↦
        rw (lookup-middle i a b k p, e, equal_other i.key j.key k e (equal_sym j.key i.key q)) refl
    | inr e ↦ rw (lookup-middle i a b k p, e) refl
  ]

  Missing-middle :
      (k : Bytes) (i : Item) (a b : StringMap)
      → Missing t k (a ++ b)
      → t.equal i.key k ≡ false
      → Missing t k (a ++ i ∷ b)
  Missing-middle k i [] b p q = (q, p)
  Missing-middle k i (j ∷ a) b (r, p) q = (r, Missing-middle k i a b p q)

  pub Distinct-middle :
      (i : Item) (a b : StringMap)
      → Distinct t (a ++ b)
      → Missing t i.key (a ++ b)
      → Distinct t (a ++ i ∷ b)
  Distinct-middle i [] b d p = (p, d)
  Distinct-middle i (j ∷ a) b (q, d) (r, p) =
      (Missing-middle j.key i a b q (equal_sym j.key i.key r), Distinct-middle i a b d p)

  -- A value that is stored in place of another.
  pub lookup-store_at :
      (m : StringMap) (k : Bytes) (n : ℕ) (v other : Bytes)
      → Distinct t m
      → KeyAt t k m n
      → lookup t (store_at m n v) other ≡ (if t.equal k other then some v else lookup t m other)
  unfolding lookup store_at
  lookup-store_at [] k n v other d h = absurd h
  lookup-store_at (i ∷ m) k zero v other (p, d) h =
      let same : i.key ≡ k = (laws.equal_iff i.key k).0 h in rw same (go (t.equal k other))
    where
      go :
          (b : Bool)
          → (if b then some v else lookup t m other)
            ≡ (if b then some v else if b then some i.value else lookup t m other)
      go true = refl
      go false = refl
  lookup-store_at (i ∷ m) k (suc n) v other (p, d) h = elim (Bool-cases (t.equal k other)) [
    | inl e ↦
        rw
          (
            lookup-store_at m k n v other d h,
            e,
            equal_other k i.key other e (Missing-KeyAt m k n i.key p h),
          )
          refl
    | inr e ↦ rw (lookup-store_at m k n v other d h, e) refl
  ]

  pub Missing-store_at :
      (m : StringMap) (k : Bytes) (n : ℕ) (v : Bytes) → Missing t k m → Missing t k (store_at m n v)
  unfolding store_at
  Missing-store_at [] k n v p = tt
  Missing-store_at (i ∷ m) k zero v (q, p) = (q, p)
  Missing-store_at (i ∷ m) k (suc n) v (q, p) = (q, Missing-store_at m k n v p)

  pub Distinct-store_at :
      (m : StringMap) (n : ℕ) (v : Bytes) → Distinct t m → Distinct t (store_at m n v)
  unfolding store_at
  Distinct-store_at [] n v d = tt
  Distinct-store_at (i ∷ m) zero v d = d
  Distinct-store_at (i ∷ m) (suc n) v (p, d) =
      (Missing-store_at m i.key n v p, Distinct-store_at m n v d)
