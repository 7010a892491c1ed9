-- ===== src/Tests/Merges.antt =====
-- Sessions that are merged.
use cm4all_beng_proxy.Common.{
  ◌≡◌, ◌≢◌, refl, Bool, true, false, none, some, [], ◌∷◌, ◌++◌, codes, Bytes, ◌==◌, ◌&&◌, arith,
}
use cm4all_beng_proxy.Session.{Text, Cookie, widget, Widgets, empty_set, entry, less}
use cm4all_beng_proxy.Session.Attach.{attach_set, find_widget, move_from, same_cookie, unlink_same}
use cm4all_beng_proxy.Session.Attach.Merge.{IsOrdered, value_of, newer, value_of-attach_set}
use cm4all_beng_proxy.Session.Attach.Cookies.{IsStringEqual, Distinct, kept, move_from-kept}
use cm4all_beng_proxy.Session.RoundTrip.Keys.{IsAscending, widget_keys}
use cm4all_beng_proxy.Tests.Sessions.{first_cookie}

abbrev menu : Widgets
menu =
    entry (codes "m") (widget empty_set (some (codes "/")) none)
      (entry (codes "n") (widget empty_set none none) empty_set)

abbrev other_menu : Widgets
other_menu =
    entry (codes "a") (widget empty_set none none)
      (entry (codes "m") (widget menu none (some (codes "q"))) empty_set)

menu-IsOrdered : IsOrdered menu
unfolding less
menu-IsOrdered = ((refl, tt), tt, (tt, tt, tt))

value_of-attach_set_example :
    IsAscending (widget_keys (attach_set menu other_menu))
    × (value_of (codes "n" ∷ []) (find_widget (codes "m") (attach_set menu other_menu))
        ≡ newer
            (value_of (codes "n" ∷ []) (find_widget (codes "m") menu))
            (value_of (codes "n" ∷ []) (find_widget (codes "m") other_menu)))
unfolding less
value_of-attach_set_example =
    value_of-attach_set (codes "m") (codes "n" ∷ []) menu other_menu menu-IsOrdered
      ((refl, tt), tt, (tt, menu-IsOrdered, tt))

both :
    find_widget (codes "m") (attach_set menu other_menu)
    ≡ some (widget menu (some (codes "/")) none)
unfolding attach_set find_widget less
both = refl

abbrev pub bytes_eq : Bytes → Bytes → Bool
bytes_eq [] [] = true
bytes_eq [] (d ∷ t) = false
bytes_eq (c ∷ s) [] = false
bytes_eq (c ∷ s) (d ∷ t) = c == d && bytes_eq s t

abbrev text_eq : Text → Text → Bool
text_eq none none = true
text_eq none (some t) = false
text_eq (some s) none = false
text_eq (some s) (some t) = bytes_eq s t

pub eq_bytes : (s t : Bytes) → bytes_eq s t ≡ true → s ≡ t
eq_bytes [] [] e = refl
eq_bytes [] (d ∷ t) e = absurd (ground arith)
eq_bytes (c ∷ s) [] e = absurd (ground arith)
eq_bytes (c ∷ s) (d ∷ t) e = ground (arith, eq_bytes s t)

pub bytes_eq_refl : (s : Bytes) → bytes_eq s s ≡ true
bytes_eq_refl [] = refl
bytes_eq_refl (c ∷ s) = ground (arith, bytes_eq_refl s)

text_eq-IsStringEqual : IsStringEqual text_eq
text_eq-IsStringEqual s t = (eq_bytes s t, λ e. rw e (bytes_eq_refl t))

abbrev first : Cookie
first = record first_cookie { path = some (codes "/") }

abbrev second_cookie : Cookie
second_cookie = record first { name = some (codes "b") }

abbrev newer_cookie : Cookie
newer_cookie = record first { value = some (codes "2") }

named : {s t u : Bytes} → (some s ≢ none) × (some t ≢ none) × (some u ≢ none)
named = (λ e. cc e, λ e. cc e, λ e. cc e)

move_from-kept_example :
    (move_from text_eq (newer_cookie ∷ []) (first ∷ second_cookie ∷ [])
      ≡ kept text_eq (newer_cookie ∷ []) (first ∷ second_cookie ∷ []) ++ newer_cookie ∷ [])
    × Distinct text_eq (move_from text_eq (newer_cookie ∷ []) (first ∷ second_cookie ∷ []))
unfolding same_cookie
move_from-kept_example =
    move_from-kept text_eq text_eq-IsStringEqual (newer_cookie ∷ []) (first ∷ second_cookie ∷ [])
      (named, tt) (named, (named, tt)) (tt, tt) ((refl, tt), (tt, tt))

replaced :
    move_from text_eq (newer_cookie ∷ []) (first ∷ second_cookie ∷ [])
    ≡ second_cookie ∷ newer_cookie ∷ []
unfolding move_from unlink_same same_cookie
replaced = refl
