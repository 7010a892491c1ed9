-- ===== src/Session/Truncated.antt =====
-- bp/session/Read.cxx at the start of a file that goes on: what the readers do there, they do with
-- the whole file too, unless they run into the end.
pub mod Whole
use cm4all_beng_proxy.Common.{
  ℕ, zero, suc, ◌+◌, ◌≤◌, ◌<◌, ◌≡◌, ◌≢◌, refl, sym, ap, ◌∙◌, Bool, true, false, Option, none, some,
  List, [], ◌∷◌, ◌++◌, Bytes, length, take, drop, leb, ◌==◌, if◌then◌else◌, arith, Bool-cases, inl,
  inr, length-append, take-append_le, drop-append_le,
}
use cm4all_beng_proxy.Session.{
  Text, WidgetSession, widget, Widgets, empty_set, Cookie, RealmSession, Realms, SessionId, Session,
  emplace_widget, emplace_realm, add_cookie, c_str,
}
use cm4all_beng_proxy.Session.Codec.{
  Machine, Fault, session_deserializer_error, end_of_file, undefined_view, Outcome, ok, failed,
  out_of_fuel, Reader, and_then, ◌>>=◌, ◌>>◌, pure, throw, read_buffer, read_number, read_bool,
  read32, read_expiry, read_body, read_string, read_array, expect32, null_length,
}
use cm4all_beng_proxy.Session.Magic
use cm4all_beng_proxy.Session.Read.{
  Mark, at_end, at_item, corrupt, mark, view, do_read_widget_session, read_widget_entry, widgets_by,
  read_widget_sessions, read_cookie, jar_by, read_cookie_jar, read_translate, read_realm_fields,
  read_realm_session, realms_by, read_realms, read_id, do_read_session, session_read,
}

module _ (t : Bytes) where
  -- How an outcome at the start of a file is related to the outcome with `t` behind it.
  abbrev pub Grows {ℓ} : {A : Type ℓ} → Outcome A → Outcome A → Type ℓ
  Grows (ok a rest) o = o ≡ ok a (rest ++ t)
  Grows (failed end_of_file) o = Unit
  Grows (failed session_deserializer_error) o = o ≡ failed session_deserializer_error
  Grows (failed undefined_view) o = o ≡ failed undefined_view
  Grows out_of_fuel o = Unit

  unfoldable pub Extends {ℓ} : {A : Type ℓ} → Reader A → Reader A → Type ℓ
  Extends r r' = (s : Bytes) → Grows (r s) (r' (s ++ t))

  module _ {A B : Type 0} where
    pub then-Extends :
        (r r' : Reader A) (f f' : A → Reader B)
        → Extends r r'
        → ((a : A) → Extends (f a) (f' a))
        → Extends (r >>= f) (r' >>= f')
    unfolding Extends
    then-Extends r r' f f' h g s = go (r s) (r' (s ++ t)) (h s)
      where
        go : (o o' : Outcome A) → Grows o o' → Grows (and_then o f) (and_then o' f')
        go (ok a rest) o' e = rw e (g a rest)
        go (failed end_of_file) o' e = tt
        go (failed session_deserializer_error) o' e = ap (λ x. and_then x f') e
        go (failed undefined_view) o' e = ap (λ x. and_then x f') e
        go out_of_fuel o' e = tt

  pub pure-Extends : {A : Type 0} (a : A) → Extends (pure a) (pure a)
  unfolding Extends
  pure-Extends a s = refl

  pub throw-Extends : (A : Type 0) (e : Fault) → Extends (throw {A = A} e) (throw e)
  unfolding Extends
  throw-Extends A end_of_file s = tt
  throw-Extends A session_deserializer_error s = refl
  throw-Extends A undefined_view s = refl

  pub buffer-Extends : (size : ℕ) → Extends (read_buffer size) (read_buffer size)
  unfolding Extends read_buffer
  buffer-Extends size s = elim (Bool-cases (leb size (length s))) [
    | inl fits ↦
        let whole : leb size (length (s ++ t)) ≡ true = ground (arith, length-append s t) in
        rw
          (
            fits,
            whole,
            take-append_le size s t (ground arith),
            drop-append_le size s t (ground arith),
          )
          refl
    | inr short ↦ rw short tt
  ]

  module _ (m : Machine) where
    pub number-Extends : (size : ℕ) → Extends (read_number m size) (read_number m size)
    unfolding read_number
    number-Extends size =
        then-Extends _ _ _ _ (buffer-Extends size) (λ bytes. pure-Extends (m.from_bytes bytes))

    body-Extends : (size : ℕ) → Extends (read_body m size) (read_body m size)
    unfolding read_body
    body-Extends size = elim (Bool-cases (size == null_length)) [
      | inl null ↦ rw null (pure-Extends none)
      | inr some_bytes ↦
          rw some_bytes
            (then-Extends _ _ _ _ (buffer-Extends size) (λ bytes. pure-Extends (some bytes)))
    ]

    pub string-Extends : Extends (read_string m) (read_string m)
    unfolding read_string
    string-Extends = then-Extends _ _ _ _ (number-Extends 2) body-Extends

    pub array-Extends : Extends (read_array m) (read_array m)
    unfolding read_array
    array-Extends = then-Extends _ _ _ _ (number-Extends 2) body-Extends

    pub bool-Extends : Extends (read_bool m) (read_bool m)
    unfolding read_bool
    bool-Extends = then-Extends _ _ _ _ (number-Extends 1) (λ value. pure-Extends _)

    pub expect-Extends : (magic : ℕ) → Extends (expect32 m magic) (expect32 m magic)
    unfolding expect32
    expect-Extends magic = then-Extends _ _ _ _ (number-Extends 4) (λ value.
        elim (Bool-cases (value == magic)) [
          | inl on ↦ rw on (pure-Extends tt)
          | inr off ↦ rw off (throw-Extends _ _)
        ])

    pub end-Extends :
        {A : Type 0} (a : A)
        → Extends
            (expect32 m Magic.end_of_record >>= λ _. pure a)
            (expect32 m Magic.end_of_record >>= λ _. pure a)
    end-Extends a = then-Extends _ _ _ _ (expect-Extends Magic.end_of_record) (λ _. pure-Extends a)

    pub view-Extends : (text : Text) → Extends (view text) (view text)
    unfolding view
    view-Extends none = throw-Extends _ _
    view-Extends (some s) = pure-Extends (c_str s)
