-- ===== src/Escape/Filter.antt =====
-- src/escape/Istream.cxx: the filter that escapes a stream. The sink behind it answers each call
-- of InvokeData() with the number of bytes that it takes, 0 if it blocks, or it destroys the
-- filter; its answers are a list, and it takes everything when they are used up.
pub mod Sink
pub mod Entity
pub mod Exact
pub mod Whole
use cm4all_beng_proxy.Common.{
  ℕ, zero, suc, ◌+◌, ◌-◌, ◌≤◌, ◌<◌, min, Bool, true, false, not, Option, none, some, List, [], ◌∷◌,
  ◌++◌, Bytes, length, take, drop, ◌==◌, ltb, if◌then◌else◌,
}
use cm4all_beng_proxy.Escape.{EscapeClass}

pub data Answer : Type 0 where
  took : ℕ → Answer
  destroy : Answer

-- The object, with what the sink has got so far and its answers to come. `destroyed` is set by
-- the sink, or at the end of the file.
pub record Filter : Type 0 where
  pub escaped : Bytes
  pub has_input : Bool
  pub output : Bytes
  pub destroyed : Bool
  pub answers : List Answer

-- InvokeData(): the number of bytes taken, at most those offered.
answer : Filter → Bytes → List Answer → ℕ × Filter
answer f src [] = (length src, record f { output = f.output ++ src })
answer f src (took n ∷ rest) =
    (min n (length src), record f { output = f.output ++ take n src; answers = rest })
answer f src (destroy ∷ rest) = (0, record f { destroyed = true; answers = rest })

unfoldable pub invoke_data : Filter → Bytes → ℕ × Filter
unfolding answer
invoke_data f src = answer f src f.answers

pub is_nil : Bytes → Bool
is_nil [] = true
is_nil (c ∷ s) = false

-- `SendEscaped` after InvokeData() has taken `nbytes`.
sent : ℕ → Filter → Bool × Filter
unfolding is_nil
sent nbytes f =
    if nbytes == 0
    then (false, f)
    else let f' = record f { escaped = drop nbytes f.escaped } in
      if not (is_nil f'.escaped)
      then (false, f')
      else if f'.has_input
      then (true, f')
      else (false, record f' { destroyed = true })

unfoldable pub send_escaped : Filter → Bool × Filter
unfolding sent
send_escaped f = let (nbytes, f') = invoke_data f f.escaped in sent nbytes f'

-- The loop of `OnData`, in pieces: `next` makes the rounds to come, on the rest of the data, with
-- the `total` consumed so far. The result is what `OnData` returns.
abbrev Rounds : Type 0
Rounds = Bytes → ℕ → Filter → ℕ × Filter

-- "insert the entity into the stream", and the test of the loop
insert_entity : Rounds → Bytes → ℕ → Bool × Filter → ℕ × Filter
insert_entity next rest total (true, f) =
    let more = next rest total f in if ltb 0 (length rest) then more else (total, f)
insert_entity next rest total (false, f) = if f.destroyed then (0, f) else (total, f)

-- "consume everything until after the control character"; the data begins with that character
pub after_control : EscapeClass → Rounds → Bytes → ℕ → Filter → ℕ × Filter
after_control cls next [] total f = (total, f)
after_control cls next (control ∷ rest) total f =
    insert_entity next rest (total + 1)
      (send_escaped (record f { escaped = cls.escape_char control }))

-- after the portion before the control character, of `n` bytes, has been forwarded
after_portion : EscapeClass → Rounds → Bytes → ℕ → ℕ → ℕ × Filter → ℕ × Filter
unfolding after_control
after_portion cls next src n total (nbytes, f) =
    if f.destroyed
    then (0, f)
    else if ltb nbytes n
    then (total + nbytes, f)
    else after_control cls next (drop n src) (total + nbytes) f

-- none found: just forward the data
after_all : ℕ → ℕ × Filter → ℕ × Filter
after_all total (nbytes, f) = if f.destroyed then (0, f) else (total + nbytes, f)

found_control : EscapeClass → Rounds → Bytes → ℕ → Filter → Option ℕ → ℕ × Filter
found_control cls next src total f none = after_all total (invoke_data f src)
found_control cls next src total f (some zero) = after_control cls next src total f
found_control cls next src total f (some (suc n)) =
    after_portion cls next src (suc n) total (invoke_data f (take (suc n) src))

-- A round consumes a control character at least, but the last.
on_data_loop : EscapeClass → ℕ → Rounds
on_data_loop cls zero src total f = (total, f)
on_data_loop cls (suc fuel) src total f =
    found_control cls (on_data_loop cls fuel) src total f (cls.escape_find src)

-- `OnData`, behind what is left of an escaped character
on_data_after : EscapeClass → Bytes → Bool × Filter → ℕ × Filter
on_data_after cls src (false, f) = (0, f)
on_data_after cls src (true, f) = on_data_loop cls (suc (length src)) src 0 f

pub on_data : EscapeClass → Filter → Bytes → ℕ × Filter
unfolding is_nil
on_data cls f src = on_data_after cls src (if is_nil f.escaped then (true, f) else send_escaped f)

-- `OnEof` and `_Read`, without the input's own work.
pub on_eof : Filter → Filter
unfolding is_nil
on_eof f =
    if is_nil f.escaped
    then record f { has_input = false; destroyed = true }
    else record f { has_input = false }
