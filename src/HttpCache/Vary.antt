-- ===== src/HttpCache/Vary.antt =====
-- The request headers that a response depends on: http_list_split of src/http/PList.cxx,
-- http_cache_copy_vary and http_cache_vary_fits of src/http/cache/RFC.cxx, and Document.cxx.
pub mod Fits
use cm4all_beng_proxy.Common.{
  ℕ, zero, suc, Bool, true, false, Option, none, some, List, [], ◌∷◌, ◌++◌, Bytes, if◌then◌else◌,
  ◌==◌, ◌≡◌, ◌↔◌, refl, sym, ap, ◌∙◌, inl, inr, All, Bool-cases, Option-cases,
}
use cm4all_beng_proxy.StringMap.{
  Item, StringMap, Trie, value_at, store_at, get, add, set_found, set, copy_items,
}
use cm4all_beng_proxy.StringMap.Laws.{IsTrie, KeyAt}
use cm4all_beng_proxy.HttpCache.{Util, ResponseInfo, Document}

-- The text in front of the first comma, and behind it if there is one.
unfoldable pub at_comma : Bytes → Bytes × Option Bytes
at_comma [] = ([], none)
at_comma (c ∷ p) = let (a, rest) = at_comma p in if c == 44 then ([], some p) else (c ∷ a, rest)

unfoldable pub value_or_empty : Option Bytes → Bytes
value_or_empty none = []
value_or_empty (some v) = v

module _ (u : Util) where
  unfoldable pub split_rest : (Bytes → List Bytes) → Option Bytes → List Bytes
  split_rest next none = []
  split_rest next (some p) = next p

  unfoldable pub split_item : (Bytes → List Bytes) → Bytes → List Bytes
  unfolding at_comma split_rest
  split_item next [] = []
  split_item next (c ∷ p) =
      let (item, rest) = at_comma (c ∷ p) in u.to_lower (u.strip_right item) ∷ split_rest next rest

  -- The loop of http_list_split, by how many items may still come.
  unfoldable pub split_loop : ℕ → Bytes → List Bytes
  unfolding split_item
  split_loop zero p = []
  split_loop (suc n) p = split_item (λ q. split_loop n q) (u.strip_left p)

  abbrev pub max_items : ℕ
  max_items = 64

  unfoldable pub http_list_split : Bytes → List Bytes
  unfolding split_loop
  http_list_split p = split_loop max_items p

module _ (t : Trie) where
  -- The value of a request header, "" if it is missing.
  unfoldable pub header_or_empty : StringMap → Bytes → Bytes
  unfolding get value_or_empty
  header_or_empty headers name = value_or_empty (get t headers name)

  unfoldable pub vary_fits : StringMap → StringMap → Bool
  unfolding header_or_empty
  vary_fits [] headers = true
  vary_fits (i ∷ vary) headers =
      let rest = vary_fits vary headers in
      if t.equal i.value (header_or_empty headers i.key) then rest else false

  -- the overload for a pointer
  unfoldable pub vary_fits_checked : Option StringMap → StringMap → Bool
  unfolding vary_fits
  vary_fits_checked none headers = true
  vary_fits_checked (some vary) headers = vary_fits vary headers

  unfoldable pub copy_loop : List Bytes → StringMap → StringMap → StringMap
  unfolding set header_or_empty
  copy_loop [] headers dest = dest
  copy_loop (name ∷ list) headers dest =
      copy_loop list headers (set t name (header_or_empty headers name) dest).0

  module _ (u : Util) where
    unfoldable pub copy_vary : Bytes → StringMap → StringMap
    unfolding copy_loop http_list_split
    copy_vary vary headers = copy_loop (http_list_split u vary) headers []

    unfoldable pub document_vary : Option Bytes → StringMap → StringMap
    unfolding copy_vary
    document_vary none request_headers = []
    document_vary (some vary) request_headers = copy_vary vary request_headers

    -- The constructor of HttpCacheDocument.
    unfoldable pub make_document : ResponseInfo → StringMap → ℕ → StringMap → Document
    unfolding document_vary copy_items
    make_document info request_headers status response_headers = record {
      info = info;
      vary = document_vary info.vary request_headers;
      status = status;
      response_headers = copy_items t [] response_headers;
    }

  -- `HttpCacheDocument::VaryFits`
  unfoldable pub document_fits : Document → StringMap → Bool
  unfolding vary_fits
  document_fits d request_headers = vary_fits d.vary request_headers
