-- ===== src/HttpCache/Vary/Fits.antt =====
-- When a cached response fits a request: http_cache_copy_vary and http_cache_vary_fits of
-- src/http/cache/RFC.cxx together.
use cm4all_beng_proxy.Common.{
  ℕ, zero, suc, true, false, Option, none, some, List, [], ◌∷◌, ◌++◌, Bytes, ◌≡◌, ◌↔◌, refl, sym,
  ap, ◌∙◌, inl, inr, All, Bool-cases,
}
use cm4all_beng_proxy.StringMap.{Item, StringMap, Trie, store_at, add, set_found, set}
use cm4all_beng_proxy.StringMap.Laws.{IsTrie, KeyAt}
use cm4all_beng_proxy.HttpCache.{Util, ResponseInfo}
use cm4all_beng_proxy.HttpCache.Vary.{
  http_list_split, header_or_empty, vary_fits, copy_loop, copy_vary, document_vary, make_document,
  document_fits,
}

module _ (t : Trie) where
  -- the two requests have the same value for the header
  abbrev pub SameHeader : StringMap → StringMap → Bytes → Type 0
  SameHeader h1 h2 name = header_or_empty t h1 name ≡ header_or_empty t h2 name

-- The headers that a "Vary" text names.
abbrev pub vary_names : Util → Option Bytes → List Bytes
vary_names u none = []
vary_names u (some vary) = http_list_split u vary

module _ (t : Trie) (laws : IsTrie t) where
  -- every item has the value that the request has
  abbrev IsTaken : StringMap → StringMap → Type 0
  IsTaken headers = All (λ i. i.value ≡ header_or_empty t headers i.key)

  fits_cons :
      (i : Item) (m h2 : StringMap)
      → (vary_fits t (i ∷ m) h2 ≡ true)
        ↔ ((i.value ≡ header_or_empty t h2 i.key) × (vary_fits t m h2 ≡ true))
  unfolding vary_fits
  fits_cons i m h2 = elim (Bool-cases (t.equal i.value (header_or_empty t h2 i.key))) [
    | inl e ↦
        rw e ((λ f. ((laws.equal_iff i.value (header_or_empty t h2 i.key)).0 e, f)), (λ f. f.1))
    | inr e ↦ (
      (λ f. absurd (cc (refuse e f))),
      (λ f. absurd (cc (e, (laws.equal_iff i.value (header_or_empty t h2 i.key)).1 f.0))),
    )
  ]
    where
      refuse :
          t.equal i.value (header_or_empty t h2 i.key) ≡ false
          → vary_fits t (i ∷ m) h2 ≡ true
          → false ≡ true
      refuse e f = sym (rw e refl) ∙ f

  fits_middle :
      (i : Item) (a b h2 : StringMap)
      → (vary_fits t (a ++ i ∷ b) h2 ≡ true)
        ↔ ((i.value ≡ header_or_empty t h2 i.key) × (vary_fits t (a ++ b) h2 ≡ true))
  fits_middle i [] b h2 = fits_cons i b h2
  fits_middle i (j ∷ a) b h2 = (
    λ f.
        let (x, f') = (fits_cons j (a ++ i ∷ b) h2).0 f in
        let (y, g) = (fits_middle i a b h2).0 f' in (y, (fits_cons j (a ++ b) h2).1 (x, g)),
    λ (y, f).
        let (x, g) = (fits_cons j (a ++ b) h2).0 f in
        (fits_cons j (a ++ i ∷ b) h2).1 (x, (fits_middle i a b h2).1 (y, g)),
  )

  IsTaken-middle :
      (h1 : StringMap) (i : Item) (a b : StringMap)
      → i.value ≡ header_or_empty t h1 i.key
      → IsTaken h1 (a ++ b)
      → IsTaken h1 (a ++ i ∷ b)
  IsTaken-middle h1 i [] b e p = (e, p)
  IsTaken-middle h1 i (j ∷ a) b e (q, p) = (q, IsTaken-middle h1 i a b e p)

  store_at_same :
      (h1 : StringMap) (m : StringMap) (k : Bytes) (n : ℕ)
      → IsTaken h1 m
      → KeyAt t k m n
      → store_at m n (header_or_empty t h1 k) ≡ m
  unfolding store_at
  store_at_same h1 [] k n p h = refl
  store_at_same h1 (i ∷ m) k zero (q, p) h =
      ap (λ v. record i { value = v } ∷ m)
        (ap (header_or_empty t h1) (sym ((laws.equal_iff i.key k).0 h)) ∙ sym q)
  store_at_same h1 (i ∷ m) k (suc n) (q, p) h = ap (◌∷◌ i) (store_at_same h1 m k n p h)

  fits_at :
      (h1 h2 m : StringMap) (k : Bytes) (n : ℕ)
      → IsTaken h1 m
      → KeyAt t k m n
      → vary_fits t m h2 ≡ true
      → SameHeader t h1 h2 k
  fits_at h1 h2 [] k n p h f = absurd h
  fits_at h1 h2 (i ∷ m) k zero (q, p) h f =
      let same : i.key ≡ k = (laws.equal_iff i.key k).0 h in
      rw (sym same) (sym q ∙ ((fits_cons i m h2).0 f).0)
  fits_at h1 h2 (i ∷ m) k (suc n) (q, p) h f = fits_at h1 h2 m k n p h ((fits_cons i m h2).0 f).1

  fits_inserted :
      (h1 h2 m m' a b : StringMap) (k : Bytes)
      → m ≡ a ++ b
      → m' ≡ a ++ record { key = k; value = header_or_empty t h1 k } ∷ b
      → IsTaken h1 m
      → IsTaken h1 m'
        × ((vary_fits t m' h2 ≡ true) ↔ (SameHeader t h1 h2 k × (vary_fits t m h2 ≡ true)))
  fits_inserted h1 h2 m m' a b k e f p =
      let i : Item = record { key = k; value = header_or_empty t h1 k } in
      rw (e, f) (IsTaken-middle h1 i a b refl (rw (sym e) p), fits_middle i a b h2)

  fits_set_found :
      (h1 h2 m : StringMap) (k : Bytes) (found : Option ℕ)
      → IsTaken h1 m
      → t.find m k ≡ found
      → IsTaken h1 (set_found t k (header_or_empty t h1 k) m found).0
        × ((vary_fits t (set_found t k (header_or_empty t h1 k) m found).0 h2 ≡ true)
            ↔ (SameHeader t h1 h2 k × (vary_fits t m h2 ≡ true)))
  unfolding set_found add
  fits_set_found h1 h2 m k none p e =
      let i : Item = record { key = k; value = header_or_empty t h1 k } in
      let (a, b, f, g) = laws.inserted i m in fits_inserted h1 h2 m (t.insert i m) a b k f g p
  fits_set_found h1 h2 m k (some n) p e =
      let h = laws.found_some m k n e in
      rw (store_at_same h1 m k n p h) (p, ((λ f. (fits_at h1 h2 m k n p h f, f)), (λ f. f.1)))

  copy_loop_fits :
      (list : List Bytes) (h1 h2 dest : StringMap)
      → IsTaken h1 dest
      → (vary_fits t (copy_loop t list h1 dest) h2 ≡ true)
        ↔ (All (SameHeader t h1 h2) list × (vary_fits t dest h2 ≡ true))
  unfolding copy_loop set
  copy_loop_fits [] h1 h2 dest p = ((λ f. (tt, f)), λ f. f.1)
  copy_loop_fits (k ∷ list) h1 h2 dest p =
      let (p', s) = fits_set_found h1 h2 dest k (t.find dest k) p refl in
      let (there, back) = copy_loop_fits list h1 h2 (set t k (header_or_empty t h1 k) dest).0 p' in
      (
        λ f. let (l, g) = there f in let (e, g') = s.0 g in ((e, l), g'),
        λ ((e, l), g). back (l, s.1 (e, g)),
      )

  copy_vary-fits :
      (u : Util) (vary : Bytes) (h1 h2 : StringMap)
      → (vary_fits t (copy_vary t u vary h1) h2 ≡ true)
        ↔ All (SameHeader t h1 h2) (http_list_split u vary)
  unfolding copy_vary vary_fits
  copy_vary-fits u vary h1 h2 =
      let (there, back) = copy_loop_fits (http_list_split u vary) h1 h2 [] tt in
      ((λ f. (there f).0), λ l. back (l, refl))

  -- With a trie that behaves as documented: a document that is made from one request and its
  -- response fits another request exactly if the two requests have the same value, or none or an
  -- empty one, for each header that http_list_split finds in the "Vary" text of the response; if
  -- it has no such text, the document fits every request.
  pub document_fits-make_document :
      (u : Util) (info : ResponseInfo) (h1 h2 : StringMap) (status : ℕ)
      (response_headers : StringMap)
      → (document_fits t (make_document t u info h1 status response_headers) h2 ≡ true)
        ↔ All (SameHeader t h1 h2) (vary_names u info.vary)
  unfolding document_fits make_document document_vary vary_fits
  document_fits-make_document u info h1 h2 status response_headers = by_vary info.vary
    where
      by_vary :
          (vary : Option Bytes)
          → (vary_fits t (document_vary t u vary h1) h2 ≡ true)
            ↔ All (SameHeader t h1 h2) (vary_names u vary)
      by_vary none = ((λ f. tt), (λ l. refl))
      by_vary (some vary) = copy_vary-fits u vary h1 h2
