-- ===== src/Session/Attach.antt =====
-- bp/session/Session.cxx and http/CookieJar.cxx: sessions that are merged, searched and expired.
-- `is_expired` is IsExpired() at the time of the call. The external session manager of a session is
-- not part of the model.
pub mod Order
pub mod Merge
pub mod Cookies
use cm4all_beng_proxy.Common.{
  ℕ, zero, suc, ◌+◌, ◌%◌, ◌^◌, Bool, true, false, ◌&&◌, ◌||◌, Option, none, some, List, [], ◌∷◌,
  ◌++◌, Bytes, ltb, if◌then◌else◌,
}
use cm4all_beng_proxy.Session.{
  Text, WidgetSession, widget, Widgets, empty_set, entry, Cookie, RealmSession, Realms, Session,
  less,
}

unfoldable pub is_some : Text → Bool
is_some none = false
is_some (some s) = true

-- `insert` of a node; `attach` is what becomes of a value that the key has already.
unfoldable pub insert_widget :
    Bytes → WidgetSession → (WidgetSession → WidgetSession) → Widgets → Widgets
insert_widget id ws attach empty_set = entry id ws empty_set
insert_widget id ws attach (entry key w rest) =
    let later = insert_widget id ws attach rest in
    if less id key
    then entry id ws (entry key w rest)
    else if less key id
    then entry key w later
    else entry key (attach w) rest

-- The two `WidgetSession::Attach`: the source comes first.
unfoldable mutual
  unfolding insert_widget is_some

  pub attach_set : Widgets → Widgets → Widgets
  attach_set empty_set dest = dest
  attach_set (entry id ws src) dest = attach_set src (insert_widget id ws (attach_widget ws) dest)

  pub attach_widget : WidgetSession → WidgetSession → WidgetSession
  attach_widget (widget src_children src_path_info src_query_string)
        (widget children path_info query_string) =
      let newer = is_some src_path_info || is_some src_query_string in
      widget (attach_set src_children children) (if newer then src_path_info else path_info)
        (if newer then src_query_string else query_string)

-- `GetWidget` and `GetChild`: the entry, or nothing
unfoldable pub find_widget : Bytes → Widgets → Option WidgetSession
find_widget id empty_set = none
find_widget id (entry key w rest) =
    let later = find_widget id rest in
    if less id key then none else if less key id then later else some w

unfoldable pub expire_jar : (ℕ → Bool) → List Cookie → List Cookie
expire_jar is_expired [] = []
expire_jar is_expired (c ∷ jar) =
    let rest = expire_jar is_expired jar in if is_expired c.expires then rest else c ∷ rest

unfoldable pub expire_realm : (ℕ → Bool) → RealmSession → RealmSession
unfolding is_some expire_jar
expire_realm is_expired realm = record realm {
  user = if is_some realm.user && is_expired realm.user_expires then none else realm.user;
  cookies = expire_jar is_expired realm.cookies;
}

unfoldable pub expire_realms : (ℕ → Bool) → Realms → Realms
unfolding expire_realm
expire_realms is_expired [] = []
expire_realms is_expired ((name, realm) ∷ realms) =
    (name, expire_realm is_expired realm) ∷ expire_realms is_expired realms

unfoldable pub expire : (ℕ → Bool) → Session → Session
unfolding expire_realms
expire is_expired session = record session { realms = expire_realms is_expired session.realms }

unfoldable pub has_user : Realms → Bool
unfolding is_some
has_user [] = false
has_user ((name, realm) ∷ realms) = is_some realm.user || has_user realms

unfoldable pub get_purge_score : Session → ℕ
unfolding has_user
get_purge_score session =
    if session.cookie_received then (if has_user session.realms then 1 else 20) else 50

-- `DiscardRealm`
unfoldable pub erase_realm : Bytes → Realms → Realms × Bool
erase_realm name [] = ([], false)
erase_realm name ((key, realm) ∷ realms) =
    let later = erase_realm name realms in
    if less name key
    then ((key, realm) ∷ realms, false)
    else if less key name
    then ((key, realm) ∷ later.0, later.1)
    else (realms, true)

unfoldable pub discard_realm : Bytes → Session → Session × Bool
unfolding erase_realm
discard_realm name session =
    let (realms, found) = erase_realm name session.realms in
    (record session { realms = realms }, found)

-- a std::move from `src` where `dest` is nullptr
unfoldable pub or_else : Text → Text → Text
or_else none src = src
or_else (some s) src = some s

-- StringIsEqual of libcommon, which is undefined for nullptr: `c_str` of a null text
module _ (string_is_equal : Text → Text → Bool) where
  unfoldable pub same_cookie : Cookie → Cookie → Bool
  same_cookie i cookie =
      string_is_equal i.domain cookie.domain
      && string_is_equal i.path cookie.path
      && string_is_equal i.name cookie.name

  -- `Find`, and the cookie that it finds is unlinked
  unfoldable pub unlink_same : Cookie → List Cookie → List Cookie
  unfolding same_cookie
  unlink_same cookie [] = []
  unlink_same cookie (i ∷ jar) =
      let rest = unlink_same cookie jar in if same_cookie i cookie then jar else i ∷ rest

  unfoldable pub move_from : List Cookie → List Cookie → List Cookie
  unfolding unlink_same
  move_from [] jar = jar
  move_from (cookie ∷ src) jar = move_from src (unlink_same cookie jar ++ cookie ∷ [])

  -- `RealmSession::Attach`
  unfoldable pub attach_realm : RealmSession → RealmSession → RealmSession
  unfolding or_else is_some attach_set move_from
  attach_realm src realm =
      let new_user = if is_some realm.user then false else is_some src.user in
      record realm {
        site = or_else realm.site src.site;
        user = if new_user then src.user else realm.user;
        user_expires = if new_user then src.user_expires else realm.user_expires;
        widgets = attach_set src.widgets realm.widgets;
        cookies = move_from src.cookies realm.cookies;
      }

  -- RealmSession(Session &, RealmSession &&); `same_site` is CookieSameSite::DEFAULT
  unfoldable pub moved_realm : ℕ → RealmSession → RealmSession
  moved_realm same_site src = record src { translate = none; session_cookie_same_site = same_site }

  unfoldable pub insert_realm : ℕ → Bytes → RealmSession → Realms → Realms
  unfolding attach_realm moved_realm
  insert_realm same_site name src [] = (name, moved_realm same_site src) ∷ []
  insert_realm same_site name src ((key, realm) ∷ rest) =
      let later = insert_realm same_site name src rest in
      if less name key
      then (name, moved_realm same_site src) ∷ (key, realm) ∷ rest
      else if less key name
      then (key, realm) ∷ later
      else (key, attach_realm src realm) ∷ rest

  unfoldable pub attach_realms : ℕ → Realms → Realms → Realms
  unfolding insert_realm
  attach_realms same_site [] realms = realms
  attach_realms same_site ((name, src) ∷ rest) realms =
      attach_realms same_site rest (insert_realm same_site name src realms)

  -- `Session::Attach`; the counter is an unsigned.
  unfoldable pub attach_session : ℕ → Session → Session → Session
  unfolding attach_realms or_else
  attach_session same_site other session = record session {
    expires = if ltb session.expires other.expires then other.expires else session.expires;
    counter = (session.counter + 1) % 2 ^ 32;
    cookie_received = other.cookie_received || session.cookie_received;
    translate = or_else session.translate other.translate;
    language = or_else session.language other.language;
    external_manager = elim session.external_manager [
      | none ↦ other.external_manager
      | some manager ↦ some manager
    ];
    realms = attach_realms same_site other.realms session.realms;
  }
