-- ===== src/HttpCache/Response.antt =====
-- src/http/cache/RFC.cxx: which responses may be stored. `clock` gives the time of each call of
-- system_clock::now(), counted from the start of the function; a status is a number.
pub mod Steps
pub mod Loops
pub mod Cacheable
pub mod Ages
pub mod Stored
use cm4all_beng_proxy.Common.{
  ℕ, zero, suc, ◌+◌, ◌-◌, ◌*◌, Bool, true, false, ◌||◌, ◌&&◌, not, Option, none, some, List, [],
  ◌∷◌, ◌++◌, Bytes, codes, length, if◌then◌else◌, leb, ◌==◌, ℤ, pos, negsuc, ◌+ℤ◌, ◌-ℤ◌, ltℤ, eqℤ,
  ◌>>=◌,
}
use cm4all_beng_proxy.StringMap.{Item, StringMap, Trie, get, contains}
use cm4all_beng_proxy.HttpCache.{
  Util, RequestInfo, ResponseInfo, Document, second, no_time, no_offset, has_time,
}

unfoldable pub status_cacheable : ℕ → Bool
status_cacheable status =
    status == 200
    || status == 203
    || status == 206
    || status == 300
    || status == 301
    || status == 410

abbrev pub cacheable_size_limit : ℤ
cacheable_size_limit = pos (512 * 1024)

-- The body is known to be too large.
unfoldable pub too_large : ℤ → Bool
too_large body_available =
    if eqℤ body_available (negsuc 0) then false else ltℤ cacheable_size_limit body_available

-- What a "Vary" header adds to those before it.
unfoldable pub concat_vary : Option Bytes → Bytes → Bytes
concat_vary none value = value
concat_vary (some before) value = before ++ codes ", " ++ value

unfoldable pub is_blank : Bytes → Bool
is_blank [] = true
is_blank (c ∷ s) = false

unfoldable pub is_missing : Option Bytes → Bool
is_missing none = true
is_missing (some value) = false

-- The end of http_cache_response_evaluate.
unfoldable pub finish_info : Bool → ℤ → ResponseInfo → Option ResponseInfo
unfolding has_time is_missing
finish_info eager_cache now info =
    if not (has_time info.expires) && is_missing info.last_modified && is_missing info.etag
    then if eager_cache then some (record info { expires = now +ℤ pos (3600 * second) }) else none
    else some info

module _ (t : Trie) where
  unfoldable pub vary_loop : Option Bytes → StringMap → Option (Option Bytes)
  unfolding concat_vary is_blank
  vary_loop vary [] = some vary
  vary_loop vary (i ∷ is) =
      let skipped = vary_loop vary is in
      let taken = vary_loop (some (concat_vary vary i.value)) is in
      if is_blank i.value then skipped else if t.equal i.value (codes "*") then none else taken

  unfoldable pub same_text : Option Bytes → Option Bytes → Bool
  same_text none b = false
  same_text (some a) none = false
  same_text (some a) (some b) = t.equal b a

  unfoldable pub prefer_cached : Document → StringMap → Bool
  unfolding same_text get
  prefer_cached document headers = same_text document.info.etag (get t headers (codes "etag"))

module _ (u : Util) where
  unfoldable pub parse_translate_time : Option Bytes → ℤ → ℤ
  unfolding has_time
  parse_translate_time none offset = no_time
  parse_translate_time (some p) offset =
      let t = u.http_date_parse p in if has_time t then t +ℤ offset else t

  -- GetServerDate() of src/http/PHeaderUtil.cxx
  unfoldable pub date_or_none : Option Bytes → ℤ
  date_or_none none = no_time
  date_or_none (some p) = u.http_date_parse p

  -- "max-age": the expiry time and how often the clock was read.
  unfoldable pub max_age_value : (ℕ → ℤ) → Option Bytes → ℤ × ℕ → ℤ × ℕ
  max_age_value clock none (e, n) = (e, n)
  max_age_value clock (some value) (e, n) =
      if leb 16 (length value)
      then (e, n)
      else if ltℤ (pos 0) (u.atoi value)
      then (clock n +ℤ seconds (u.atoi value), suc n)
      else (e, n)
    where
      seconds : ℤ → ℤ
      seconds (pos s) = pos (s * second)
      seconds (negsuc s) = negsuc (suc s * second - 1)

  unfoldable pub directive_list : Option Bytes → List Bytes
  directive_list none = []
  directive_list (some cache_control) = u.directives cache_control

module _ (t : Trie) (u : Util) where
  unfoldable pub get_server_date : StringMap → ℤ
  unfolding date_or_none get
  get_server_date headers = date_or_none u (get t headers (codes "date"))

  unfoldable pub get_server_date_offset : RequestInfo → ℤ → StringMap → ℤ
  unfolding get_server_date has_time
  get_server_date_offset request now headers =
      if not request.is_remote
      then pos 0
      else if has_time (get_server_date headers)
      then now -ℤ get_server_date headers
      else no_offset

  -- The directive does not allow the response to be stored.
  unfoldable pub forbids : Bytes → Bool
  forbids s =
      u.starts_with s (codes "private")
      || t.equal s (codes "no-cache")
      || t.equal s (codes "no-store")

  unfoldable pub directive_loop : (ℕ → ℤ) → List Bytes → ℤ × ℕ → Option (ℤ × ℕ)
  unfolding forbids max_age_value
  directive_loop clock [] found = some found
  directive_loop clock (s ∷ ss) found =
      let rest =
        directive_loop clock ss
          (max_age_value u clock (u.skip_prefix s (codes "max-age=")) found) in
      if forbids s then none else rest

  -- The expiry time that the response gives: "max-age", else "Expires".
  unfoldable pub explicit_expires : ℤ → ℤ → StringMap → ℤ
  unfolding parse_translate_time has_time get
  explicit_expires found offset headers =
      if has_time found
      then found
      else parse_translate_time u (get t headers (codes "expires")) offset

  -- The part behind the loop over the directives.
  unfoldable pub after_directives :
      RequestInfo → Bool → (ℕ → ℤ) → StringMap → ℤ × ℕ → Option ResponseInfo
  unfolding get_server_date_offset explicit_expires has_time vary_loop finish_info get
  after_directives request eager_cache clock headers (found, n) =
      let offset = get_server_date_offset request (clock n) headers in
      let expires = explicit_expires found offset headers in
      if eqℤ offset no_offset
      then none
      else if request.has_query_string && not eager_cache && not (has_time expires)
      then none
      else vary_loop t none (t.equal_range headers (codes "vary")) >>= λ vary.
          finish_info eager_cache (clock (suc n)) (record {
            expires = expires;
            last_modified = get t headers (codes "last-modified");
            etag = get t headers (codes "etag");
            vary = vary;
          })

  unfoldable pub response_evaluate :
      RequestInfo → Bool → (ℕ → ℤ) → ℕ → StringMap → ℤ → Option ResponseInfo
  unfolding status_cacheable too_large directive_loop directive_list after_directives get
  response_evaluate request eager_cache clock status headers body_available =
      if not (status_cacheable status)
      then none
      else if too_large body_available
      then none
      else directive_loop clock (directive_list u (get t headers (codes "cache-control")))
          (no_time, 0)
        >>= after_directives request eager_cache clock headers
