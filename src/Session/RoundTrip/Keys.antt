-- ===== src/Session/RoundTrip/Keys.antt =====
-- The order of the keys of a std::map, and a key that is put behind all others.
use cm4all_beng_proxy.Common.{◌≡◌, refl, ap, true, false, List, [], ◌∷◌, ◌++◌, Bytes, arith, All}
use cm4all_beng_proxy.Session.{
  WidgetSession, Widgets, empty_set, entry, RealmSession, Realms, less, emplace_widget,
  emplace_realm,
}

pub less-asym : (s t : Bytes) → less s t ≡ true → less t s ≡ false
unfolding less
less-asym [] [] h = absurd (ground arith)
less-asym [] (d ∷ t) h = refl
less-asym (c ∷ s) [] h = absurd (ground arith)
less-asym (c ∷ s) (d ∷ t) h = ground (arith, less-asym s t)

-- Each key is less than all that follow.
abbrev pub IsAscending : List Bytes → Type 0
IsAscending [] = Unit
IsAscending (k ∷ ks) = All (λ j. less k j ≡ true) ks × IsAscending ks

abbrev pub Below : List Bytes → Bytes → Type 0
Below ks k = All (λ j. less j k ≡ true) ks

All-middle :
    (P : Bytes → Type 0) (ks : List Bytes) (k : Bytes) (js : List Bytes)
    → All P (ks ++ k ∷ js)
    → P k
All-middle P [] k js (p, ps) = p
All-middle P (i ∷ ks) k js (p, ps) = All-middle P ks k js ps

pub ascending-Below :
    (ks : List Bytes) (k : Bytes) (js : List Bytes) → IsAscending (ks ++ k ∷ js) → Below ks k
ascending-Below [] k js h = tt
ascending-Below (i ∷ ks) k js (p, h) =
    (All-middle (λ j. less i j ≡ true) ks k js p, ascending-Below ks k js h)

abbrev pub widget_keys : Widgets → List Bytes
widget_keys empty_set = []
widget_keys (entry id ws rest) = id ∷ widget_keys rest

abbrev pub append_widgets : Widgets → Widgets → Widgets
append_widgets empty_set vs = vs
append_widgets (entry id ws rest) vs = entry id ws (append_widgets rest vs)

abbrev pub realm_keys : Realms → List Bytes
realm_keys [] = []
realm_keys ((name, realm) ∷ rest) = name ∷ realm_keys rest

pub emplace_widget-last :
    (id : Bytes) (ws : WidgetSession) (vs : Widgets)
    → Below (widget_keys vs) id
    → emplace_widget id ws vs ≡ append_widgets vs (entry id ws empty_set)
unfolding emplace_widget
emplace_widget-last id ws empty_set h = refl
emplace_widget-last id ws (entry key w rest) (p, h) =
    rw (less-asym key id p, p) (ap (entry key w) (emplace_widget-last id ws rest h))

pub emplace_realm-last :
    (name : Bytes) (realm : RealmSession) (rs : Realms)
    → Below (realm_keys rs) name
    → emplace_realm name realm rs ≡ rs ++ (name, realm) ∷ []
unfolding emplace_realm
emplace_realm-last name realm [] h = refl
emplace_realm-last name realm ((key, r) ∷ rest) (p, h) =
    rw (less-asym key name p, p) (ap (λ x. (key, r) ∷ x) (emplace_realm-last name realm rest h))

pub append_widgets_assoc :
    (us vs ws : Widgets)
    → append_widgets (append_widgets us vs) ws ≡ append_widgets us (append_widgets vs ws)
append_widgets_assoc empty_set vs ws = refl
append_widgets_assoc (entry id w rest) vs ws = ap (entry id w) (append_widgets_assoc rest vs ws)

pub append_widgets_empty : (us : Widgets) → append_widgets us empty_set ≡ us
append_widgets_empty empty_set = refl
append_widgets_empty (entry id w rest) = ap (entry id w) (append_widgets_empty rest)

pub widget_keys-append :
    (us vs : Widgets) → widget_keys (append_widgets us vs) ≡ widget_keys us ++ widget_keys vs
widget_keys-append empty_set vs = refl
widget_keys-append (entry id w rest) vs = ap (λ ks. id ∷ ks) (widget_keys-append rest vs)

pub realm_keys-append : (us vs : Realms) → realm_keys (us ++ vs) ≡ realm_keys us ++ realm_keys vs
realm_keys-append [] vs = refl
realm_keys-append ((name, realm) ∷ rest) vs = ap (λ ks. name ∷ ks) (realm_keys-append rest vs)
