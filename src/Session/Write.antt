-- ===== src/Session/Write.antt =====
-- src/bp/session/Write.cxx
use cm4all_beng_proxy.Common.{Option, some, List, [], ◌∷◌, Bytes}
use cm4all_beng_proxy.Session.{
  WidgetSession, widget, Widgets, empty_set, entry, Cookie, RealmSession, Realms, SessionId,
  Session,
}
use cm4all_beng_proxy.Session.Magic
use cm4all_beng_proxy.Session.Codec.{
  Machine, ◌then_write◌, write_number, write_bool, write32, write_expiry, write_span, write_string,
}

module _ (m : Machine) where
  unfoldable mutual
    pub write_widget_session : WidgetSession → Option Bytes
    write_widget_session (widget children path_info query_string) =
        write_widget_sessions children
        then_write write_string m path_info
        then_write write_string m query_string
        then_write write32 m Magic.end_of_record

    pub write_widget_sessions : Widgets → Option Bytes
    write_widget_sessions empty_set = write32 m Magic.end_of_list
    write_widget_sessions (entry id ws rest) =
        write32 m Magic.widget_session
        then_write write_span m (some id)
        then_write write_widget_session ws
        then_write write_widget_sessions rest

  unfoldable pub write_cookie : Cookie → Option Bytes
  write_cookie cookie =
      write_string m cookie.name
      then_write write_string m cookie.value
      then_write write_string m cookie.domain
      then_write write_string m cookie.path
      then_write write_expiry m cookie.expires
      then_write write32 m Magic.end_of_record

  unfoldable pub write_cookie_jar : List Cookie → Option Bytes
  write_cookie_jar [] = write32 m Magic.end_of_list
  write_cookie_jar (cookie ∷ jar) =
      write32 m Magic.magic_cookie then_write write_cookie cookie then_write write_cookie_jar jar

  unfoldable pub write_realm_session : RealmSession → Option Bytes
  write_realm_session realm =
      write_string m realm.site
      then_write write_span m realm.translate
      then_write write_string m realm.user
      then_write write_expiry m realm.user_expires
      then_write write_widget_sessions realm.widgets
      then_write write_cookie_jar realm.cookies
      then_write write_number m 1 realm.session_cookie_same_site
      then_write write32 m Magic.end_of_record

  -- the loop over the realms in `session_write`, and the end of their list
  unfoldable pub write_realms : Realms → Option Bytes
  write_realms [] = write32 m Magic.end_of_list
  write_realms ((name, realm) ∷ rest) =
      write32 m Magic.realm_session
      then_write write_span m (some name)
      then_write write_realm_session realm
      then_write write_realms rest

  unfoldable pub write_id : SessionId → Option Bytes
  write_id id = write_number m 8 id.low then_write write_number m 8 id.high

  unfoldable pub session_write : Session → Option Bytes
  session_write session =
      write_id session.id
      then_write write_expiry m session.expires
      then_write write_number m 4 session.counter
      then_write write_bool m session.cookie_received
      then_write write_span m session.translate
      then_write write_string m session.language
      then_write write_realms session.realms
      then_write write32 m Magic.end_of_record
