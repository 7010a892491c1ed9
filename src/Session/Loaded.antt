-- ===== src/Session/Loaded.antt =====
-- `SessionManager::Load` of bp/session/Save.cxx on any file.
use cm4all_beng_proxy.Common.{
  ℕ, zero, suc, ◌+◌, ◌<◌, ◌≡◌, ◌≢◌, sym, ◌∙◌, Bool, true, false, List, [], ◌∷◌, ◌++◌, Bytes, length,
  arith, All, Bool-cases, inl, inr, append_assoc, append-nil,
}
use cm4all_beng_proxy.Session.{SessionId, Session}
use cm4all_beng_proxy.Session.Codec.{Machine, Outcome, ok, failed, out_of_fuel, read32, expect32}
use cm4all_beng_proxy.Session.Magic
use cm4all_beng_proxy.Session.Read.{Mark, at_end, at_item, corrupt, mark}
use cm4all_beng_proxy.Session.Save.{
  Ending, returned, stuck, session_read_file_header, after_session, by_mark, after_magic, load_loop,
  after_file_header, load, Rounds,
}
use cm4all_beng_proxy.Session.Total.{
  Takes, IsTotal, number-IsTotal, then-IsTotal, expect-IsTotal, session_read-Takes,
}

module _ (is_expired : ℕ → Bool) where
  -- The loop has come to an end, and all it has done is to add sessions that are not expired.
  abbrev pub HasAdded : List Session → List Session × Ending → Type 0
  HasAdded sessions (result, ending) =
      (added : List Session) × (ending ≢ stuck)
      × (result ≡ sessions ++ added)
      × All (λ s. is_expired s.expires ≡ false) added

  nothing-HasAdded :
      (sessions : List Session) (e : Ending) → e ≢ stuck → HasAdded sessions (sessions, e)
  nothing-HasAdded sessions e h = ([], h, sym (append-nil sessions), tt)

  one-HasAdded :
      (sessions : List Session) (s : Session) (r : List Session × Ending)
      → is_expired s.expires ≡ false
      → HasAdded (sessions ++ s ∷ []) r
      → HasAdded sessions r
  one-HasAdded sessions s (result, ending) fresh (added, h, is, all) =
      (s ∷ added, h, is ∙ append_assoc sessions (s ∷ []) added, (fresh, all))

returned-ne-stuck : (b : Bool) → returned b ≢ stuck
returned-ne-stuck b e = cc

module _ (m : Machine) (is_expired : ℕ → Bool) (salts : ℕ → SessionId) where
  module _ (n : ℕ) (next : Rounds m is_expired salts)
      (h : (i : ℕ) (sessions : List Session) (s : Bytes)
        → length s < n
        → HasAdded is_expired sessions (next i sessions s)) where
    session-HasAdded :
        (i : ℕ) (sessions : List Session) (s : Bytes) (o : Outcome Session)
        → length s < n
        → Takes 0 s o
        → HasAdded is_expired sessions (after_session m is_expired salts next i sessions o)
    unfolding after_session
    session-HasAdded i sessions s (ok v rest) lt t = elim (Bool-cases (is_expired v.expires)) [
      | inl old ↦ rw (after_session, old) (h (i + 1) sessions rest (omega (arith, t)))
      | inr new ↦
          rw (after_session, new)
            (one-HasAdded is_expired sessions v _ new (h (i + 1) _ rest (omega (arith, t))))
    ]
    session-HasAdded i sessions s (failed e) lt t =
        nothing-HasAdded is_expired sessions _ (λ e'. cc)
    session-HasAdded i sessions s out_of_fuel lt t = absurd t

    mark-HasAdded :
        (i : ℕ) (sessions : List Session) (s : Bytes) (k : Mark)
        → length s < n
        → HasAdded is_expired sessions (by_mark m is_expired salts next i sessions s k)
    unfolding by_mark
    mark-HasAdded i sessions s at_end lt =
        nothing-HasAdded is_expired sessions _ (returned-ne-stuck true)
    mark-HasAdded i sessions s corrupt lt =
        nothing-HasAdded is_expired sessions _ (returned-ne-stuck false)
    mark-HasAdded i sessions s at_item lt =
        session-HasAdded i sessions s _ lt (session_read-Takes m (salts i) s)

    magic-HasAdded :
        (i : ℕ) (sessions : List Session) (s : Bytes) (o : Outcome ℕ)
        → length s < suc n
        → Takes 4 s o
        → HasAdded is_expired sessions (after_magic m is_expired salts next i sessions o)
    unfolding after_magic
    magic-HasAdded i sessions s (ok magic rest) lt t =
        mark-HasAdded i sessions rest (mark Magic.magic_session magic) (omega (arith, t))
    magic-HasAdded i sessions s (failed e) lt t = nothing-HasAdded is_expired sessions _ (λ e'. cc)
    magic-HasAdded i sessions s out_of_fuel lt t = absurd t

  loop-HasAdded :
      (n i : ℕ) (sessions : List Session) (s : Bytes)
      → length s < n
      → HasAdded is_expired sessions (load_loop m is_expired salts n i sessions s)
  unfolding load_loop
  loop-HasAdded zero i sessions s lt = absurd (omega arith)
  loop-HasAdded (suc n) i sessions s lt =
      magic-HasAdded n (load_loop m is_expired salts n) (loop-HasAdded n) i sessions s (read32 m s)
        lt (unfold IsTotal in number-IsTotal m (suc n) 4 s lt)

  header-HasAdded :
      (sessions : List Session) (s : Bytes) (o : Outcome (Unit {0}))
      → Takes 0 s o
      → HasAdded is_expired sessions
          (after_file_header m is_expired salts sessions (suc (length s)) o)
  unfolding after_file_header
  header-HasAdded sessions s (ok u rest) t =
      loop-HasAdded (suc (length s)) 0 sessions rest (omega (arith, t))
  header-HasAdded sessions s (failed e) t = nothing-HasAdded is_expired sessions _ (λ e'. cc)
  header-HasAdded sessions s out_of_fuel t = absurd t

  -- On any file, none of the loops of `Load` uses up its fuel: it returns, or throws, or gets to the
  -- std::string_view of a nullptr, whose behaviour is undefined and where the model stops. However it
  -- ends, what it has done to the manager is to insert sessions that are not
  -- expired behind those that were there.
  pub load-HasAdded :
      (sessions : List Session) (s : Bytes)
      → HasAdded is_expired sessions (load m is_expired salts sessions s)
  unfolding load
  load-HasAdded sessions s = header-HasAdded sessions s (session_read_file_header m s) (
      unfold IsTotal session_read_file_header in
      then-IsTotal (suc (length s)) (expect32 m Magic.file) _ (expect-IsTotal m _ Magic.file)
        (λ u. expect-IsTotal m _ m.session_size) s (omega arith))
