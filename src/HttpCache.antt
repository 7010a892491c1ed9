-- ===== src/HttpCache.antt =====
-- src/http/cache: which responses the HTTP cache may keep, for how long, and for which requests it
-- may use them. This file has the data: Info.hxx, Document.hxx, and what libcommon does with
-- strings and dates, as the interface `Util`. A time is the number of nanoseconds since the epoch
-- of its clock; the arithmetic on times does not wrap, since its overflow has no defined result.
pub mod Vary
pub mod Request
pub mod Response
pub mod Age
pub mod Found
use cm4all_beng_proxy.Common.{
  ℕ, ◌*◌, ◌^◌, ◌-◌, Bool, true, false, if◌then◌else◌, Option, none, some, List, Bytes, ℤ, pos,
  negsuc, eqℤ,
}
use cm4all_beng_proxy.StringMap.{StringMap}

-- `directives` splits at commas and strips each part; `skip_prefix` is the rest behind a prefix;
-- `to_lower` is what DupToLower copies; `http_date_parse` gives from_time_t(-1) for no date.
pub record Util : Type 0 where
  pub directives : Bytes → List Bytes
  pub starts_with : Bytes → Bytes → Bool
  pub skip_prefix : Bytes → Bytes → Option Bytes
  pub atoi : Bytes → ℤ
  pub strip_left : Bytes → Bytes
  pub strip_right : Bytes → Bytes
  pub to_lower : Bytes → Bytes
  pub http_date_parse : Bytes → ℤ
  pub http_list_contains : Bytes → Bytes → Bool

abbrev pub second : ℕ
second = 10 ^ 9

abbrev pub hour : ℕ
hour = 3600 * second

-- `from_time_t(-1)`
abbrev pub no_time : ℤ
no_time = negsuc (10 ^ 9 - 1)

-- `duration::min()`
abbrev pub no_offset : ℤ
no_offset = negsuc (2 ^ 63 - 1)

unfoldable pub has_time : ℤ → Bool
has_time t = if eqℤ t no_time then false else true

pub record RequestInfo : Type 0 where
  pub if_match : Option Bytes
  pub if_none_match : Option Bytes
  pub if_modified_since : Option Bytes
  pub if_unmodified_since : Option Bytes
  pub is_remote : Bool
  pub no_cache : Bool
  pub only_if_cached : Bool
  pub has_query_string : Bool

pub record ResponseInfo : Type 0 where
  pub expires : ℤ
  pub last_modified : Option Bytes
  pub etag : Option Bytes
  pub vary : Option Bytes

-- The headers of the response are `response_headers`; `vary` has the request headers that the
-- response depends on.
pub record Document : Type 0 where
  pub info : ResponseInfo
  pub vary : StringMap
  pub status : ℕ
  pub response_headers : StringMap
