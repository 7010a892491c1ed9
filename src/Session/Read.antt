-- ===== src/Session/Read.antt =====
-- src/bp/session/Read.cxx. The loops over the lists of a file have fuel, and `out_of_fuel` stands
-- for a loop that has used it up; each round reads a magic number.
use cm4all_beng_proxy.Common.{
  ℕ, zero, suc, Bool, true, false, none, some, List, [], Bytes, length, ◌==◌, if◌then◌else◌,
}
use cm4all_beng_proxy.Session.{
  Text, WidgetSession, widget, Widgets, empty_set, Cookie, RealmSession, Realms, SessionId, Session,
  emplace_widget, emplace_realm, add_cookie, c_str,
}
use cm4all_beng_proxy.Session.Codec.{
  Machine, Reader, stop, ◌>>=◌, ◌>>◌, pure, throw, session_deserializer_error, undefined_view,
  read_number, read_bool, read32, read_expiry, read_array, read_string, expect32,
}
use cm4all_beng_proxy.Session.Magic

-- What a magic number in front of a list's element says.
pub data Mark : Type 0 where
  at_end at_item corrupt : Mark

unfoldable pub mark : ℕ → ℕ → Mark
mark item magic =
    if magic == Magic.end_of_list then at_end else if magic == item then at_item else corrupt

-- `std::string_view{text.c_str()}`
unfoldable pub view : Text → Reader Bytes
view none = throw undefined_view
view (some s) = pure (c_str s)

module _ (m : Machine) where
  -- `DoReadWidgetSession`, with the reader of the children
  unfoldable pub do_read_widget_session : Reader Widgets → Reader WidgetSession
  do_read_widget_session read_children = do
    children ← read_children
    path_info ← read_string m
    query_string ← read_string m
    expect32 m Magic.end_of_record
    pure (widget children path_info query_string)

  -- one element of the list, behind its magic number, and the rest of the list
  unfoldable pub read_widget_entry :
      Reader Widgets → (Widgets → Reader Widgets) → Widgets → Reader Widgets
  unfolding do_read_widget_session view
  read_widget_entry read_children next widgets = do
    id ← read_string m
    ws ← do_read_widget_session read_children
    key ← view id
    next (emplace_widget key ws widgets)

  unfoldable pub widgets_by :
      Mark → Reader Widgets → (Widgets → Reader Widgets) → Widgets → Reader Widgets
  unfolding read_widget_entry
  widgets_by at_end read_children next widgets = pure widgets
  widgets_by at_item read_children next widgets = read_widget_entry read_children next widgets
  widgets_by corrupt read_children next widgets = throw session_deserializer_error

  unfoldable pub read_widget_sessions : ℕ → Widgets → Reader Widgets
  unfolding widgets_by mark
  read_widget_sessions zero widgets = stop
  read_widget_sessions (suc fuel) widgets = do
    magic ← read32 m
    widgets_by (mark Magic.widget_session magic) (read_widget_sessions fuel empty_set)
        (read_widget_sessions fuel) widgets

  unfoldable pub read_cookie : Reader Cookie
  read_cookie = do
    name ← read_string m
    value ← read_string m
    domain ← read_string m
    path ← read_string m
    expires ← read_expiry m
    expect32 m Magic.end_of_record
    pure (record { name = name; value = value; domain = domain; path = path; expires = expires })

  unfoldable pub jar_by :
      Mark → (List Cookie → Reader (List Cookie)) → List Cookie → Reader (List Cookie)
  unfolding read_cookie
  jar_by at_end next jar = pure jar
  jar_by at_item next jar = do cookie ← read_cookie; next (add_cookie cookie jar)
  jar_by corrupt next jar = throw session_deserializer_error

  unfoldable pub read_cookie_jar : ℕ → List Cookie → Reader (List Cookie)
  unfolding jar_by mark
  read_cookie_jar zero jar = stop
  read_cookie_jar (suc fuel) jar = do
    magic ← read32 m
    jar_by (mark Magic.magic_cookie magic) (read_cookie_jar fuel) jar

  -- `translate` is in the files since version 17.2
  unfoldable pub read_translate : Bool → Reader Text
  read_translate true = read_array m
  read_translate false = pure none

  -- behind the magic number
  unfoldable pub read_realm_fields : ℕ → Bool → Reader RealmSession
  unfolding read_translate read_widget_sessions read_cookie_jar
  read_realm_fields fuel have_translate = do
    site ← read_string m
    translate ← read_translate have_translate
    user ← read_string m
    user_expires ← read_expiry m
    widgets ← read_widget_sessions fuel empty_set
    cookies ← read_cookie_jar fuel []
    same_site ← read_number m 1
    expect32 m Magic.end_of_record
    pure (record {
      site = site;
      translate = translate;
      user = user;
      user_expires = user_expires;
      widgets = widgets;
      cookies = cookies;
      session_cookie_same_site = same_site;
    })

  unfoldable pub read_realm_session : ℕ → ℕ → Reader RealmSession
  unfolding read_realm_fields
  read_realm_session fuel magic =
      if magic == Magic.realm_session
      then read_realm_fields fuel true
      else if magic == Magic.realm_session_old
      then read_realm_fields fuel false
      else throw session_deserializer_error

  -- the loop in `DoReadSession`, behind a magic number
  unfoldable pub realms_by : Bool → ℕ → ℕ → (Realms → Reader Realms) → Realms → Reader Realms
  unfolding read_realm_session view
  realms_by true fuel magic next realms = pure realms
  realms_by false fuel magic next realms = do
    name ← read_string m
    realm ← read_realm_session fuel magic
    key ← view name
    next (emplace_realm key realm realms)

  unfoldable pub read_realms : ℕ → Realms → Reader Realms
  unfolding realms_by
  read_realms zero realms = stop
  read_realms (suc fuel) realms = do
    magic ← read32 m
    realms_by (magic == Magic.end_of_list) fuel magic (read_realms fuel) realms

  unfoldable pub read_id : Reader SessionId
  read_id = do
    low ← read_number m 8
    high ← read_number m 8
    pure (record { low = low; high = high })

  unfoldable pub do_read_session : ℕ → SessionId → SessionId → Reader Session
  unfolding read_realms
  do_read_session fuel csrf_salt id = do
    expires ← read_expiry m
    counter ← read_number m 4
    cookie_received ← read_bool m
    translate ← read_array m
    language ← read_string m
    realms ← read_realms fuel []
    expect32 m Magic.end_of_record
    pure (record {
      id = id;
      csrf_salt = csrf_salt;
      expires = expires;
      counter = counter;
      cookie_received = cookie_received;
      translate = translate;
      recover = none;
      attach = none;
      language = language;
      external_manager = none;
      realms = realms;
    })

  -- `session_read`; the new secret `csrf_salt` is what the generator returns.
  unfoldable pub session_read : SessionId → Reader Session
  unfolding read_id do_read_session
  session_read csrf_salt s = (read_id >>= do_read_session (suc (length s)) csrf_salt) s
