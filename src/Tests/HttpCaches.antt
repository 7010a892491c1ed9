-- ===== src/Tests/HttpCaches.antt =====
-- The HTTP cache's rules on concrete requests and responses. A date is written as the number of
-- its second.
use cm4all_beng_proxy.Common.{
  ◌≡◌, refl, ◌↔◌, ℕ, ◌+◌, ◌-◌, ◌*◌, ◌<◌, Bool, true, false, none, some, List, [], ◌∷◌, ◌++◌, codes,
  Bytes, if◌then◌else◌, ◌==◌, All, pos, length, take, drop,
}
use cm4all_beng_proxy.StringMap.{StringMap, get, contains}
use cm4all_beng_proxy.StringMap.Laws.{Distinct}
use cm4all_beng_proxy.HttpCache.{Util, RequestInfo, ResponseInfo, Document, second, no_time}
use cm4all_beng_proxy.HttpCache.Vary.{copy_vary, make_document, document_fits}
use cm4all_beng_proxy.HttpCache.Vary.Fits.{SameHeader, vary_names, document_fits-make_document}
use cm4all_beng_proxy.HttpCache.Age.{
  age_limit, calc_expires, validate, IsFresh, validate-calc_expires,
}
use cm4all_beng_proxy.HttpCache.Request.{Methods, request_evaluate}
use cm4all_beng_proxy.HttpCache.Request.Lookup.{AllowsLookup, request_evaluate_iff}
use cm4all_beng_proxy.HttpCache.Response.{response_evaluate}
use cm4all_beng_proxy.HttpCache.Response.Steps.{Returns}
use cm4all_beng_proxy.HttpCache.Found.{respond, Stats, revalidate, found_document}
use cm4all_beng_proxy.HttpCache.Found.Conditions.{validator_or, revalidate-get}
use cm4all_beng_proxy.Tests.Merges.{bytes_eq}
use cm4all_beng_proxy.Tests.Headers.{list_trie, list_trie-IsTrie, item, request_headers}

abbrev strip : Bytes → Bytes
strip [] = []
strip (c ∷ s) = let rest = strip s in if c == 32 then rest else c ∷ s

abbrev split_at : Bytes → Bytes → List Bytes
split_at part [] = strip part ∷ []
split_at part (c ∷ s) =
    let next = split_at [] s in
    let more = split_at (part ++ c ∷ []) s in if c == 44 then strip part ∷ next else more

abbrev is_prefix : Bytes → Bytes → Bool
is_prefix s prefix = bytes_eq (take (length prefix) s) prefix

abbrev digits : ℕ → Bytes → ℕ
digits n [] = n
digits n (c ∷ s) = digits (n * 10 + (c - 48)) s

abbrev util : Util
util = record {
  directives = split_at [];
  starts_with = is_prefix;
  skip_prefix = λ s prefix. if is_prefix s prefix then some (drop (length prefix) s) else none;
  atoi = λ s. pos (digits 0 s);
  strip_left = strip;
  strip_right = λ s. s;
  to_lower = λ s. s;
  http_date_parse = λ s. pos (digits 0 s * second);
  http_list_contains = bytes_eq;
}

abbrev varied_info : ResponseInfo
varied_info = record {
  expires = no_time;
  last_modified = none;
  etag = none;
  vary = some (codes "cookie, accept-encoding");
}

document_fits-make_document_example :
    (document_fits list_trie (make_document list_trie util varied_info request_headers 200 []) []
      ≡ true)
    ↔ All (SameHeader list_trie request_headers []) (vary_names util varied_info.vary)
document_fits-make_document_example =
    document_fits-make_document list_trie list_trie-IsTrie util varied_info request_headers [] 200
      []

varied :
    copy_vary list_trie util (codes "cookie, x, cookie") request_headers
    ≡ item (codes "cookie") (codes "a=b") ∷ item (codes "x") [] ∷ []
unfolding copy_vary
varied = refl

validate-calc_expires_example :
    (validate
        (calc_expires list_trie (pos 5) (pos (100 * second)) (pos (160 * second)) [])
        (pos (5 + 59 * second))
      ≡ true)
    ↔ ((59 * second < age_limit list_trie [])
        × IsFresh (pos (100 * second)) (pos (160 * second)) (59 * second))
validate-calc_expires_example =
    validate-calc_expires list_trie 5 (59 * second) (pos (100 * second)) (pos (160 * second)) []

abbrev plain_request : RequestInfo
plain_request = record {
  if_match = none;
  if_none_match = none;
  if_modified_since = none;
  if_unmodified_since = none;
  is_remote = true;
  no_cache = false;
  only_if_cached = false;
  has_query_string = false;
}

abbrev response_headers : StringMap
response_headers =
    item (codes "date") (codes "90")
    ∷ item (codes "cache-control") (codes "public, max-age=60")
    ∷ item (codes "etag") (codes "v1")
    ∷ item (codes "vary") (codes "cookie")
    ∷ []

abbrev ticks : ℕ → ℕ
ticks n = 100 * second + n

abbrev stored_info : ResponseInfo
stored_info = record {
  expires = pos (160 * second);
  last_modified = none;
  etag = some (codes "v1");
  vary = some (codes "cookie");
}

stored :
    response_evaluate list_trie util plain_request false
      (λ n. pos (ticks n))
      200
      response_headers
      (pos 10)
    ≡ some stored_info
unfolding response_evaluate
stored = refl

abbrev document : Document
document = record {
  info = stored_info;
  vary = item (codes "cookie") (codes "a=b") ∷ [];
  status = 200;
  response_headers = response_headers;
}

abbrev conditional_request : RequestInfo
conditional_request = record plain_request { if_none_match = some (codes "v1") }

abbrev no_stats : Stats
no_stats = record { hits = 0; misses = 0 }

-- The document has expired, and is not asked for again.
expired_document :
    found_document list_trie util (pos (1000 * second)) conditional_request document [] no_stats
    ≡ (record { hits = 1; misses = 0 }, respond 304 response_headers)
unfolding found_document
expired_document = refl

revalidate-get_example :
    Distinct list_trie (revalidate list_trie document request_headers)
    × (get list_trie (revalidate list_trie document request_headers) (codes "if-none-match")
        ≡ validator_or list_trie
            (codes "if-none-match")
            document.info.etag
            (codes "if-none-match")
            (validator_or list_trie
              (codes "if-modified-since")
              document.info.last_modified
              (codes "if-none-match")
              (get list_trie request_headers (codes "if-none-match"))))
revalidate-get_example =
    revalidate-get list_trie list_trie-IsTrie document request_headers (codes "if-none-match")
      ((refl, (refl, tt)), ((refl, tt), (tt, tt)))

abbrev methods : Methods
methods = record { get_method = 0; put_method = 1; delete_method = 2; post_method = 3 }

looked_up :
    request_evaluate list_trie util methods 0 true false
      (item (codes "cache-control") (codes "no-cache, max-age=0") ∷ [])
      true
      false
    ≡ some (record plain_request { no_cache = true })
unfolding request_evaluate
looked_up = refl

request_evaluate_iff_example :
    Returns (request_evaluate list_trie util methods 0 true false request_headers true false) ↔ (
      (0 ≡ methods.get_method)
      × (false ≡ false)
      × (contains list_trie request_headers (codes "range") ≡ false)
      × (contains list_trie request_headers (codes "authorization") ≡ false)
      × AllowsLookup list_trie util true request_headers
          (get list_trie request_headers (codes "cache-control")))
request_evaluate_iff_example =
    request_evaluate_iff list_trie util list_trie-IsTrie methods 0 true false request_headers true
      false
