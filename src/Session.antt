-- ===== src/Session.antt =====
-- src/bp/session/Session.hxx and src/http/CookieJar.hxx: the data of a session that is saved. An
-- AllocatedString or an AllocatedArray is `none` where it is nullptr, else its bytes; an Expiry and
-- an enum are the numbers that are stored.
pub mod Magic
pub mod Codec
pub mod Write
pub mod Read
pub mod Save
pub mod RoundTrip
pub mod Total
pub mod Loaded
pub mod Truncated
pub mod Attach
pub mod Id
pub mod Manager
use cm4all_beng_proxy.Common.{
  ℕ, Bool, true, false, Option, none, some, List, [], ◌∷◌, Bytes, ltb, ◌==◌, if◌then◌else◌,
}

abbrev pub Text : Type 0
Text = Option Bytes

-- `WidgetSession`, and `WidgetSession::Set`, a std::map in the order of its keys.
mutual
  pub data WidgetSession : Type 0 where
    widget : Widgets → Text → Text → WidgetSession

  pub data Widgets : Type 0 where
    empty_set : Widgets
    entry : Bytes → WidgetSession → Widgets → Widgets

pub record Cookie : Type 0 where
  pub name : Text
  pub value : Text
  pub domain : Text
  pub path : Text
  pub expires : ℕ

pub record RealmSession : Type 0 where
  pub site : Text
  pub translate : Text
  pub user : Text
  pub user_expires : ℕ
  pub widgets : Widgets
  pub cookies : List Cookie
  pub session_cookie_same_site : ℕ

-- `Session::RealmSessionSet`, a std::map in the order of its keys
abbrev pub Realms : Type 0
Realms = List (Bytes × RealmSession)

-- A SessionId is two numbers of 64 bits.
pub record SessionId : Type 0 where
  pub low : ℕ
  pub high : ℕ

-- `external_manager` when it is not nullptr, which is the text that tells the address, with
-- `external_keepalive` and `next_external_keepalive`, which only count then. Its pool is the memory.
pub record ExternalManager : Type 0 where
  pub address : Bytes
  pub external_keepalive : ℕ
  pub next_external_keepalive : ℕ

pub record Session : Type 0 where
  pub id : SessionId
  pub csrf_salt : SessionId
  pub expires : ℕ
  pub counter : ℕ
  pub cookie_received : Bool
  pub translate : Text
  pub recover : Text
  pub attach : Text
  pub language : Text
  pub external_manager : Option ExternalManager
  pub realms : Realms

-- std::less of two keys: bytes are compared as unsigned numbers, from the front.
unfoldable pub less : Bytes → Bytes → Bool
less [] [] = false
less [] (d ∷ t) = true
less (c ∷ s) [] = false
less (c ∷ s) (d ∷ t) =
    let rest = less s t in if ltb c d then true else if c == d then rest else false

-- `emplace`: a new key gets its place in the order, and an old one keeps its value.
unfoldable pub emplace_widget : Bytes → WidgetSession → Widgets → Widgets
emplace_widget id ws empty_set = entry id ws empty_set
emplace_widget id ws (entry key w rest) =
    let later = emplace_widget id ws rest in
    if less id key
    then entry id ws (entry key w rest)
    else if less key id
    then entry key w later
    else entry key w rest

unfoldable pub emplace_realm : Bytes → RealmSession → Realms → Realms
emplace_realm name realm [] = (name, realm) ∷ []
emplace_realm name realm ((key, r) ∷ rest) =
    let later = emplace_realm name realm rest in
    if less name key
    then (name, realm) ∷ (key, r) ∷ rest
    else if less key name
    then (key, r) ∷ later
    else (key, r) ∷ rest

-- `CookieJar::Add`: push_front
unfoldable pub add_cookie : Cookie → List Cookie → List Cookie
add_cookie cookie jar = cookie ∷ jar

-- a C string: the bytes before the first null
unfoldable pub c_str : Bytes → Bytes
c_str [] = []
c_str (c ∷ s) = let rest = c_str s in if c == 0 then [] else c ∷ rest
