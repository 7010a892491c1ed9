-- ===== src/Session/Total.antt =====
-- bp/session/Read.cxx on any input: its loops come to an end.
use cm4all_beng_proxy.Common.{
  ℕ, zero, suc, ◌+◌, ◌≤◌, ◌<◌, Bool, true, false, none, some, List, [], Bytes, length, leb, ◌==◌,
  arith, length-drop, Bool-cases, inl, inr,
}
use cm4all_beng_proxy.Session.{
  Text, widget, Widgets, empty_set, Cookie, Realms, SessionId, emplace_widget, emplace_realm,
  add_cookie, c_str,
}
use cm4all_beng_proxy.Session.Codec.{
  Machine, Fault, Outcome, ok, failed, out_of_fuel, Reader, and_then, ◌>>=◌, pure, throw,
  read_buffer, read_number, read_bool, read32, read_expiry, read_body, read_string, read_array,
  expect32, null_length,
}
use cm4all_beng_proxy.Session.Magic
use cm4all_beng_proxy.Session.Read.{
  Mark, at_end, at_item, corrupt, mark, view, do_read_widget_session, read_widget_entry, widgets_by,
  read_widget_sessions, read_cookie, jar_by, read_cookie_jar, read_translate, read_realm_fields,
  read_realm_session, realms_by, read_realms, read_id, do_read_session, session_read,
}

-- The reader has not used up its fuel, and what it leaves is at least `k` bytes shorter.
abbrev pub Takes {ℓ} : {A : Type ℓ} → ℕ → Bytes → Outcome A → Type 0
Takes k s (ok v rest) = length rest + k ≤ length s
Takes k s (failed e) = Unit
Takes k s out_of_fuel = ⊥

-- On every input that is shorter than `n`.
unfoldable pub IsTotal {ℓ} : {A : Type ℓ} → ℕ → ℕ → Reader A → Type 0
IsTotal n k r = (s : Bytes) → length s < n → Takes k s (r s)

module _ {ℓ κ} {A : Type ℓ} {B : Type κ} where
  then-Takes :
      (n k : ℕ) (f : A → Reader B) (s : Bytes) (o : Outcome A)
      → length s < n + k
      → Takes k s o
      → ((a : A) → IsTotal n 0 (f a))
      → Takes 0 s (and_then o f)
  unfolding IsTotal
  then-Takes n k f s (ok a rest) lt t h = longer (f a rest) (h a rest (omega (arith, t)))
    where
      longer : (o : Outcome B) → Takes 0 rest o → Takes 0 s o
      longer (ok b rest') l = omega (arith, l, t)
      longer (failed e) l = tt
      longer out_of_fuel l = l
  then-Takes n k f s (failed e) lt t h = tt
  then-Takes n k f s out_of_fuel lt t h = t

  pub then-IsTotal :
      (n : ℕ) (r : Reader A) (f : A → Reader B)
      → IsTotal n 0 r
      → ((a : A) → IsTotal n 0 (f a))
      → IsTotal n 0 (r >>= f)
  unfolding IsTotal
  then-IsTotal n r f h g s lt = then-Takes n 0 f s (r s) (omega arith) (h s lt) g

  -- the first reader takes a byte at least
  pub first-IsTotal :
      (n : ℕ) (r : Reader A) (f : A → Reader B)
      → IsTotal (suc n) 1 r
      → ((a : A) → IsTotal n 0 (f a))
      → IsTotal (suc n) 0 (r >>= f)
  unfolding IsTotal
  first-IsTotal n r f h g s lt = then-Takes n 1 f s (r s) (omega arith) (h s lt) g

  pub map-IsTotal :
      (n k : ℕ) (r : Reader A) (f : A → B) → IsTotal n k r → IsTotal n k (r >>= λ a. pure (f a))
  unfolding IsTotal
  map-IsTotal n k r f h s lt = go (r s) (h s lt)
    where
      go : (o : Outcome A) → Takes k s o → Takes k s (and_then o (λ a. pure (f a)))
      go (ok a rest) t = t
      go (failed e) t = t
      go out_of_fuel t = t

module _ {ℓ} {A : Type ℓ} where
  pub pure-IsTotal : (n : ℕ) (a : A) → IsTotal n 0 (pure a)
  unfolding IsTotal
  pure-IsTotal n a s lt = omega arith

throw-IsTotal : (A : Type 0) (n : ℕ) (e : Fault) → IsTotal n 0 (throw {A = A} e)
unfolding IsTotal
throw-IsTotal A n e s lt = tt

pub buffer-IsTotal : (n size : ℕ) → IsTotal n size (read_buffer size)
unfolding IsTotal read_buffer
buffer-IsTotal n size s lt = elim (Bool-cases (leb size (length s))) [
  | inl fits ↦ rw fits (ground (arith, length-drop size s))
  | inr short ↦ rw short tt
]

weaken : {A : Type 0} (n j k : ℕ) (r : Reader A) → j ≤ k → IsTotal n k r → IsTotal n j r
unfolding IsTotal
weaken {A} n j k r le h s lt = go (r s) (h s lt)
  where
    go : (o : Outcome A) → Takes k s o → Takes j s o
    go (ok a rest) t = omega (arith, t)
    go (failed e) t = t
    go out_of_fuel t = t

module _ (m : Machine) where
  pub number-IsTotal : (n size : ℕ) → IsTotal n size (read_number m size)
  unfolding read_number
  number-IsTotal n size = map-IsTotal n size (read_buffer size) m.from_bytes (buffer-IsTotal n size)

  any-IsTotal : (n size : ℕ) → IsTotal n 0 (read_number m size)
  any-IsTotal n size = weaken n 0 size (read_number m size) (omega arith) (number-IsTotal n size)

  body-IsTotal : (n size : ℕ) → IsTotal n 0 (read_body m size)
  unfolding read_body
  body-IsTotal n size = elim (Bool-cases (size == null_length)) [
    | inl null ↦ rw null (pure-IsTotal n none)
    | inr some_bytes ↦ rw some_bytes (
        weaken n 0 size _ (omega arith)
          (map-IsTotal n size (read_buffer size) some (buffer-IsTotal n size)))
  ]

  string-IsTotal : (n : ℕ) → IsTotal n 0 (read_string m)
  unfolding read_string
  string-IsTotal n =
      then-IsTotal n (read_number m 2) (read_body m) (any-IsTotal n 2) (body-IsTotal n)

  array-IsTotal : (n : ℕ) → IsTotal n 0 (read_array m)
  unfolding read_array
  array-IsTotal n =
      then-IsTotal n (read_number m 2) (read_body m) (any-IsTotal n 2) (body-IsTotal n)

  bool-IsTotal : (n : ℕ) → IsTotal n 0 (read_bool m)
  unfolding read_bool
  bool-IsTotal n =
      weaken n 0 1 _ (omega arith) (map-IsTotal n 1 (read_number m 1) _ (number-IsTotal n 1))

  pub expect-IsTotal : (n magic : ℕ) → IsTotal n 0 (expect32 m magic)
  unfolding expect32
  expect-IsTotal n magic = then-IsTotal n (read32 m) _ (any-IsTotal n 4) (λ value.
      elim (Bool-cases (value == magic)) [
        | inl on ↦ rw on (pure-IsTotal n tt)
        | inr off ↦ rw off (throw-IsTotal _ n _)
      ])

  -- an expected magic number at the end of a record
  end-IsTotal :
      {A : Type 0} (n : ℕ) (a : A) → IsTotal n 0 (expect32 m Magic.end_of_record >>= λ _. pure a)
  end-IsTotal n a =
      then-IsTotal n _ _ (expect-IsTotal n Magic.end_of_record) (λ _. pure-IsTotal n a)

  session-IsTotal :
      (n : ℕ) (r : Reader Widgets) → IsTotal n 0 r → IsTotal n 0 (do_read_widget_session m r)
  unfolding do_read_widget_session
  session-IsTotal n r h = then-IsTotal n r _ h (λ children.
      then-IsTotal n (read_string m) _ (string-IsTotal n) (λ p.
        then-IsTotal n (read_string m) _ (string-IsTotal n)
          (λ q. end-IsTotal n (widget children p q))))

  view-IsTotal : (n : ℕ) (t : Text) → IsTotal n 0 (view t)
  unfolding view
  view-IsTotal n none = throw-IsTotal _ n _
  view-IsTotal n (some s) = pure-IsTotal n (c_str s)

  -- a magic number, and what stands behind it
  pub magic-IsTotal :
      {A : Type 0} (n : ℕ) (f : ℕ → Reader A)
      → ((magic : ℕ) → IsTotal n 0 (f magic))
      → IsTotal (suc n) 0 (read32 m >>= f)
  magic-IsTotal n f h =
      first-IsTotal n (read32 m) f
        (weaken (suc n) 1 4 (read32 m) (omega arith) (number-IsTotal (suc n) 4)) h

  widgets_by-IsTotal :
      (n : ℕ) (k : Mark) (r : Reader Widgets) (next : Widgets → Reader Widgets) (ws : Widgets)
      → IsTotal n 0 r
      → ((ws' : Widgets) → IsTotal n 0 (next ws'))
      → IsTotal n 0 (widgets_by m k r next ws)
  unfolding widgets_by read_widget_entry
  widgets_by-IsTotal n at_end r next ws children rest = pure-IsTotal n ws
  widgets_by-IsTotal n at_item r next ws children rest =
      then-IsTotal n (read_string m) _ (string-IsTotal n) (λ id.
        then-IsTotal n (do_read_widget_session m r) _ (session-IsTotal n r children) (λ w.
          then-IsTotal n (view id) _ (view-IsTotal n id) (λ key. rest (emplace_widget key w ws))))
  widgets_by-IsTotal n corrupt r next ws children rest = throw-IsTotal _ n _

  widgets-IsTotal : (n : ℕ) (ws : Widgets) → IsTotal n 0 (read_widget_sessions m n ws)
  unfolding read_widget_sessions
  widgets-IsTotal zero ws = unfold IsTotal in λ s lt. absurd (omega arith)
  widgets-IsTotal (suc n) ws = magic-IsTotal n _ (λ magic.
      widgets_by-IsTotal n (mark Magic.widget_session magic) (read_widget_sessions m n empty_set)
        (read_widget_sessions m n) ws (widgets-IsTotal n empty_set) (widgets-IsTotal n))

  cookie-IsTotal : (n : ℕ) → IsTotal n 0 (read_cookie m)
  unfolding read_cookie
  cookie-IsTotal n = then-IsTotal n (read_string m) _ (string-IsTotal n) (λ name.
      then-IsTotal n (read_string m) _ (string-IsTotal n) (λ value.
        then-IsTotal n (read_string m) _ (string-IsTotal n) (λ domain.
          then-IsTotal n (read_string m) _ (string-IsTotal n) (λ path.
            then-IsTotal n (read_expiry m) _ (any-IsTotal n m.expiry_size)
              (λ expires. end-IsTotal n _)))))

  jar_by-IsTotal :
      (n : ℕ) (k : Mark) (next : List Cookie → Reader (List Cookie)) (jar : List Cookie)
      → ((jar' : List Cookie) → IsTotal n 0 (next jar'))
      → IsTotal n 0 (jar_by m k next jar)
  unfolding jar_by
  jar_by-IsTotal n at_end next jar rest = pure-IsTotal n jar
  jar_by-IsTotal n at_item next jar rest =
      then-IsTotal n (read_cookie m) _ (cookie-IsTotal n) (λ cookie. rest (add_cookie cookie jar))
  jar_by-IsTotal n corrupt next jar rest = throw-IsTotal _ n _

  jar-IsTotal : (n : ℕ) (jar : List Cookie) → IsTotal n 0 (read_cookie_jar m n jar)
  unfolding read_cookie_jar
  jar-IsTotal zero jar = unfold IsTotal in λ s lt. absurd (omega arith)
  jar-IsTotal (suc n) jar = magic-IsTotal n _ (λ magic.
      jar_by-IsTotal n (mark Magic.magic_cookie magic) (read_cookie_jar m n) jar (jar-IsTotal n))

  translate-IsTotal : (n : ℕ) (b : Bool) → IsTotal n 0 (read_translate m b)
  unfolding read_translate
  translate-IsTotal n true = array-IsTotal n
  translate-IsTotal n false = pure-IsTotal n none

  fields-IsTotal : (n : ℕ) (b : Bool) → IsTotal n 0 (read_realm_fields m n b)
  unfolding read_realm_fields
  fields-IsTotal n b = then-IsTotal n (read_string m) _ (string-IsTotal n) (λ site.
      then-IsTotal n (read_translate m b) _ (translate-IsTotal n b) (λ translate.
        then-IsTotal n (read_string m) _ (string-IsTotal n) (λ user.
          then-IsTotal n (read_expiry m) _ (any-IsTotal n m.expiry_size) (λ expires.
            then-IsTotal n (read_widget_sessions m n empty_set) _ (widgets-IsTotal n empty_set)
              (λ ws. then-IsTotal n (read_cookie_jar m n []) _ (jar-IsTotal n []) (λ jar.
                then-IsTotal n (read_number m 1) _ (any-IsTotal n 1)
                  (λ same_site. end-IsTotal n _)))))))

  realm-IsTotal : (n magic : ℕ) → IsTotal n 0 (read_realm_session m n magic)
  unfolding read_realm_session
  realm-IsTotal n magic = elim (Bool-cases (magic == Magic.realm_session)) [
    | inl new ↦ rw new (fields-IsTotal n true)
    | inr other ↦ elim (Bool-cases (magic == Magic.realm_session_old)) [
      | inl old ↦ rw (other, old) (fields-IsTotal n false)
      | inr neither ↦ rw (other, neither) (throw-IsTotal _ n _)
    ]
  ]

  realms_by-IsTotal :
      (n : ℕ) (b : Bool) (magic : ℕ) (next : Realms → Reader Realms) (realms : Realms)
      → ((realms' : Realms) → IsTotal n 0 (next realms'))
      → IsTotal n 0 (realms_by m b n magic next realms)
  unfolding realms_by
  realms_by-IsTotal n true magic next realms rest = pure-IsTotal n realms
  realms_by-IsTotal n false magic next realms rest =
      then-IsTotal n (read_string m) _ (string-IsTotal n) (λ name.
        then-IsTotal n (read_realm_session m n magic) _ (realm-IsTotal n magic) (λ realm.
          then-IsTotal n (view name) _ (view-IsTotal n name)
            (λ key. rest (emplace_realm key realm realms))))

  realms-IsTotal : (n : ℕ) (realms : Realms) → IsTotal n 0 (read_realms m n realms)
  unfolding read_realms
  realms-IsTotal zero realms = unfold IsTotal in λ s lt. absurd (omega arith)
  realms-IsTotal (suc n) realms = magic-IsTotal n _ (λ magic.
      realms_by-IsTotal n (magic == Magic.end_of_list) magic (read_realms m n) realms
        (realms-IsTotal n))

  id-IsTotal : (n : ℕ) → IsTotal n 0 (read_id m)
  unfolding read_id
  id-IsTotal n =
      then-IsTotal n (read_number m 8) _ (any-IsTotal n 8)
        (λ low. map-IsTotal n 0 (read_number m 8) _ (any-IsTotal n 8))

  do_session-IsTotal : (n : ℕ) (salt id : SessionId) → IsTotal n 0 (do_read_session m n salt id)
  unfolding do_read_session
  do_session-IsTotal n salt id =
      then-IsTotal n (read_expiry m) _ (any-IsTotal n m.expiry_size) (λ expires.
        then-IsTotal n (read_number m 4) _ (any-IsTotal n 4) (λ counter.
          then-IsTotal n (read_bool m) _ (bool-IsTotal n) (λ received.
            then-IsTotal n (read_array m) _ (array-IsTotal n) (λ translate.
              then-IsTotal n (read_string m) _ (string-IsTotal n) (λ language.
                then-IsTotal n (read_realms m n []) _ (realms-IsTotal n [])
                  (λ realms. end-IsTotal n _))))))

  pub session_read-Takes : (salt : SessionId) (s : Bytes) → Takes 0 s (session_read m salt s)
  unfolding session_read
  session_read-Takes salt s =
      unfold IsTotal in
      then-IsTotal (suc (length s)) (read_id m) _ (id-IsTotal _) (do_session-IsTotal _ salt) s
        (omega arith)
