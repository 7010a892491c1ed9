-- ===== src/HttpCache/Age.antt =====
-- How long a response is kept: src/http/cache/Age.cxx, and CacheItem::Validate of
-- src/cache/Item.hxx, which decides whether it is used.
use cm4all_beng_proxy.Common.{
  ℕ, ◌+◌, ◌*◌, ◌<◌, Bool, true, false, ◌||◌, codes, if◌then◌else◌, ◌≡◌, refl, inl, inr, Bool-cases,
  arith, ltb, ℤ, pos, negsuc, ◌+ℤ◌, ◌-ℤ◌, ltℤ, leℤ, ltb→lt, lt→ltb, ◌⊎◌, ◌↔◌,
}
use cm4all_beng_proxy.StringMap.{StringMap, Trie, contains, is_empty}
use cm4all_beng_proxy.HttpCache.{second, hour, has_time}

abbrev pub week : ℕ
week = 7 * 24 * hour

-- The age that the limit clips.
unfoldable pub clip : ℤ → ℤ → ℤ
clip limit max_age = if ltℤ limit max_age then limit else max_age

module _ (t : Trie) where
  unfoldable pub age_limit : StringMap → ℕ
  unfolding is_empty contains
  age_limit vary =
      if is_empty vary
      then week
      else if contains t vary (codes "x-cm4all-beng-user")
          || contains t vary (codes "cookie")
          || contains t vary (codes "cookie2")
      then 5 * 60 * second
      else if contains t vary (codes "x-widgetid") || contains t vary (codes "x-widgethref")
      then 30 * 60 * second
      else hour

  unfoldable pub calc_expires : ℤ → ℤ → ℤ → StringMap → ℤ
  unfolding has_time age_limit clip
  calc_expires steady_now system_now expires vary =
      let limit = pos (age_limit vary) in
      if has_time expires
      then if leℤ expires system_now
        then pos 0
        else steady_now +ℤ clip limit (expires -ℤ system_now)
      else steady_now +ℤ clip limit (pos hour)

-- `CacheItem::Validate`, where the item does not override it.
unfoldable pub validate : ℤ → ℤ → Bool
validate expires now = ltℤ now expires

-- `ToSteady`
unfoldable pub to_steady : ℤ → ℤ → ℤ → ℤ
to_steady steady_now system_now t =
    if ltℤ system_now t then steady_now +ℤ (t -ℤ system_now) else pos 0

-- An age that is clipped is bounded twice: by the limit and by itself.
clip_iff :
    (s d l : ℕ) (a : ℤ)
    → (ltℤ (pos (s + d)) (pos s +ℤ clip (pos l) a) ≡ true) ↔ ((d < l) × (ltℤ (pos d) a ≡ true))
unfolding clip
clip_iff s d l (pos a) = ((λ h. (ground arith, ground arith)), (λ (h, k). ground arith))
clip_iff s d l (negsuc a) = ((λ h. (ground arith, ground arith)), (λ (h, k). ground arith))

later_iff :
    (d : ℕ) (system expires : ℤ)
    → (ltℤ (pos d) (expires -ℤ system) ≡ true) ↔ (ltℤ (system +ℤ pos d) expires ≡ true)
later_iff d (pos a) (pos b) = ((λ h. ground arith), (λ h. ground arith))
later_iff d (pos a) (negsuc b) = ((λ h. ground arith), (λ h. ground arith))
later_iff d (negsuc a) (pos b) = ((λ h. ground arith), (λ h. ground arith))
later_iff d (negsuc a) (negsuc b) = ((λ h. ground arith), (λ h. ground arith))

expired_false :
    (d : ℕ) (system expires : ℤ)
    → leℤ expires system ≡ true
    → ltℤ (system +ℤ pos d) expires ≡ true
    → ⊥
expired_false d (pos a) (pos b) h k = ground arith
expired_false d (pos a) (negsuc b) h k = ground arith
expired_false d (negsuc a) (pos b) h k = ground arith
expired_false d (negsuc a) (negsuc b) h k = ground arith

-- After `d` nanoseconds, a response that was stored at the time `system` is within its own time:
-- an hour, or up to the time at which it expires if it has one.
abbrev pub IsFresh : ℤ → ℤ → ℕ → Type 0
IsFresh system expires d =
    ((has_time expires ≡ false) × (d < hour))
    ⊎ ((has_time expires ≡ true) × (ltℤ (system +ℤ pos d) expires ≡ true))

module _ (t : Trie) where
  calc_untimed :
      (s system expires : ℤ) (vary : StringMap)
      → has_time expires ≡ false
      → calc_expires t s system expires vary ≡ s +ℤ clip (pos (age_limit t vary)) (pos hour)
  unfolding calc_expires
  calc_untimed s system expires vary e = rw e refl

  calc_past :
      (s system expires : ℤ) (vary : StringMap)
      → has_time expires ≡ true
      → leℤ expires system ≡ true
      → calc_expires t s system expires vary ≡ pos 0
  unfolding calc_expires
  calc_past s system expires vary e past = rw (e, past) refl

  calc_timed :
      (s system expires : ℤ) (vary : StringMap)
      → has_time expires ≡ true
      → leℤ expires system ≡ false
      → calc_expires t s system expires vary
        ≡ s +ℤ clip (pos (age_limit t vary)) (expires -ℤ system)
  unfolding calc_expires
  calc_timed s system expires vary e later = rw (e, later) refl

  -- An item that is stored when the steady clock is not negative, with the time that
  -- http_cache_calc_expires gives, is valid after `d` nanoseconds on both clocks exactly if `d` is
  -- below the age limit and the response is then fresh: it has no expiry time and `d` is below an
  -- hour, or the wall clock is still before the expiry time.
  pub validate-calc_expires :
      (s d : ℕ) (system expires : ℤ) (vary : StringMap)
      → (validate (calc_expires t (pos s) system expires vary) (pos (s + d)) ≡ true)
        ↔ ((d < age_limit t vary) × IsFresh system expires d)
  unfolding validate
  validate-calc_expires s d system expires vary = elim (Bool-cases (has_time expires)) [
    | inr e ↦
        let (there, back) = clip_iff s d (age_limit t vary) (pos hour) in
        rw (calc_untimed (pos s) system expires vary e) (
          (λ h. ((there h).0, inl (e, ltb→lt d hour (there h).1))),
          (λ (l, f). back (l, go_hour e f)),
        )
    | inl e ↦ elim (Bool-cases (leℤ expires system)) [
      | inl past ↦
          rw (calc_past (pos s) system expires vary e past)
            ((λ h. absurd (ground arith)), (λ (l, f). absurd (go_past e past f)))
      | inr later ↦
          let (there, back) = clip_iff s d (age_limit t vary) (expires -ℤ system) in
          rw (calc_timed (pos s) system expires vary e later) (
            (λ h. ((there h).0, inr (e, (later_iff d system expires).0 (there h).1))),
            (λ (l, f). back (l, (later_iff d system expires).1 (go_timed e f))),
          )
    ]
  ]
    where
      go_hour : has_time expires ≡ false → IsFresh system expires d → ltb d hour ≡ true
      go_hour e (inl (f, l)) = lt→ltb d hour l
      go_hour e (inr (f, l)) = absurd (cc (e, f))

      go_timed :
          has_time expires ≡ true → IsFresh system expires d → ltℤ (system +ℤ pos d) expires ≡ true
      go_timed e (inl (f, l)) = absurd (cc (e, f))
      go_timed e (inr (f, l)) = l

      go_past : has_time expires ≡ true → leℤ expires system ≡ true → IsFresh system expires d → ⊥
      go_past e past f = expired_false d system expires past (go_timed e f)
