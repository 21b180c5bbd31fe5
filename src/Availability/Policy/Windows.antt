-- ===== src/Availability/Policy/Windows.antt =====
-- src/pa/availability.rs: the policies that `AvailabilityPolicy::new` gives.
use mathlib.Core.Path.{subst}
use agent_voice.Common.{
  ℕ, zero, suc, ◌≤◌, ◌<◌, ◌≡◌, refl, ap, false, List, [], ◌∷◌, length, All, All-append, Bytes,
  arith, Bool-cases, Option-cases, inl, inr, some,
}
use agent_voice.Common.Results.{ok, ok-injective, Result-cases}
use agent_voice.Common.Int.{ℤ, pos, negsuc, ◌≤ℤ◌, ◌<ℤ◌}
use agent_voice.Common.Sort.{sort_by_key, All-sort_by_key}
use agent_voice.Common.Text.{trim}
use agent_voice.Availability.Dates.{Dates, day_ns}
use agent_voice.Availability.Policy.{
  WorkingWindow, window_key, AvailabilityPolicy, validate_durations, extend_at, index_windows,
  has_overlap, check_days, no_windows, new,
}

-- A `WorkingWindow` that `new_window` made of two times of day.
abbrev pub IsWindow : WorkingWindow → Type 0
IsWindow w = (w.starts_at < w.ends_at) × (w.ends_at < day_ns)

-- Each window ends before the next begins, or as it begins.
abbrev InOrder : List WorkingWindow → Type 0
InOrder [] = Unit
InOrder (v ∷ []) = Unit
InOrder (v ∷ w ∷ ws) = (v.ends_at ≤ w.starts_at) × InOrder (w ∷ ws)

abbrev pub IsDay : List WorkingWindow → Type 0
IsDay ws = All IsWindow ws × InOrder ws

pub record IsPolicy {Tz : Type 0} (p : AvailabilityPolicy Tz) : Type 0 where
  pub seven : length p.windows ≡ 7
  pub days : All IsDay p.windows
  pub notice : pos 0 ≤ℤ p.minimum_notice
  pub horizon : pos 0 <ℤ p.booking_horizon
  pub buffer : pos 0 ≤ℤ p.meeting_buffer

has_overlap-InOrder : (ws : List WorkingWindow) → has_overlap ws ≡ false → InOrder ws
unfolding has_overlap
has_overlap-InOrder [] h = tt
has_overlap-InOrder (w ∷ []) h = tt
has_overlap-InOrder (v ∷ w ∷ ws) h = (ground arith, has_overlap-InOrder (w ∷ ws) (ground arith))

length-extend_at :
    (i : ℕ) (ws : List WorkingWindow) (days : List (List WorkingWindow))
    → length (extend_at i ws days) ≡ length days
unfolding extend_at
length-extend_at i ws [] = refl
length-extend_at zero ws (day ∷ days) = refl
length-extend_at (suc i) ws (day ∷ days) = omega (arith, length-extend_at i ws days)

All-extend_at :
    (i : ℕ) (ws : List WorkingWindow) (days : List (List WorkingWindow))
    → All IsWindow ws
    → All (All IsWindow) days
    → All (All IsWindow) (extend_at i ws days)
unfolding extend_at
All-extend_at i ws [] h hs = tt
All-extend_at zero ws (day ∷ days) h (hd, hs) = (All-append IsWindow day ws hd h, hs)
All-extend_at (suc i) ws (day ∷ days) h (hd, hs) = (hd, All-extend_at i ws days h hs)

module _ (windows : List (ℕ × List WorkingWindow)) where
  abbrev Windows : Type 0
  Windows = All (λ day. All IsWindow day.1) windows

length-index_windows :
    (windows : List (ℕ × List WorkingWindow)) (indexed : List (List WorkingWindow))
    → length (index_windows windows indexed) ≡ length indexed
unfolding index_windows
length-index_windows [] indexed = refl
length-index_windows ((i, ws) ∷ windows) indexed = omega (
  arith,
  length-index_windows windows (extend_at i (sort_by_key window_key ws) indexed),
  length-extend_at i (sort_by_key window_key ws) indexed,
)

All-index_windows :
    (windows : List (ℕ × List WorkingWindow)) (indexed : List (List WorkingWindow))
    → Windows windows
    → All (All IsWindow) indexed
    → All (All IsWindow) (index_windows windows indexed)
unfolding index_windows
All-index_windows [] indexed h hs = hs
All-index_windows ((i, ws) ∷ windows) indexed (h, hw) hs =
    All-index_windows windows (extend_at i (sort_by_key window_key ws) indexed) hw (
      All-extend_at i (sort_by_key window_key ws) indexed (All-sort_by_key window_key IsWindow ws h)
        hs)

check_days_sound :
    (days checked : List (List WorkingWindow))
    → All (All IsWindow) days
    → check_days days ≡ ok checked
    → All IsDay checked × (length checked ≡ length days)
unfolding check_days
check_days_sound [] checked hs h =
    subst (λ c. All IsDay c × (length c ≡ 0)) (ok-injective h) (tt, refl)
check_days_sound (day ∷ days) checked (hd, hs) h =
    let sorted = sort_by_key window_key day in
    elim (Bool-cases (has_overlap sorted)) [
      | inl e ↦ cc (rw e at h)
      | inr e ↦ elim (Result-cases (check_days days)) [
        | inr (x, f) ↦ cc (rw (e, f) at h)
        | inl (rest, f) ↦
            let (days_ok, same) = check_days_sound days rest hs f in
            let day_ok : IsDay sorted =
              (All-sort_by_key window_key IsWindow day hd, has_overlap-InOrder sorted e) in
            subst (λ c. All IsDay c × (length c ≡ suc (length days)))
              (ok-injective (rw (e, f) at h)) ((day_ok, days_ok), ap suc same)
      ]
    ]

validate_durations_sound :
    (notice horizon buffer : ℤ)
    → validate_durations notice horizon buffer ≡ ok tt
    → (pos 0 ≤ℤ notice) × (pos 0 <ℤ horizon) × (pos 0 ≤ℤ buffer)
unfolding validate_durations
validate_durations_sound notice (pos zero) buffer h = absurd (ground arith)
validate_durations_sound notice (negsuc n) buffer h = absurd (ground arith)
validate_durations_sound notice (pos (suc n)) buffer h = (ground arith, ground arith, ground arith)

-- A policy that `new` constructs, from windows that are proper, has seven days, whose windows are
-- proper and in order without overlap, non-negative notice and buffer, a positive horizon, and the
-- timezone that its trimmed name is parsed to.
pub new-IsPolicy :
    {Tz : Type 0} (d : Dates Tz) (timezone : Bytes) (windows : List (ℕ × List WorkingWindow))
    (notice horizon buffer : ℤ) (p : AvailabilityPolicy Tz)
    → Windows windows
    → new d timezone windows notice horizon buffer ≡ ok p
    → IsPolicy p
      × (p.timezone_name ≡ trim timezone)
      × (d.parse_timezone (trim timezone) ≡ some p.timezone)
unfolding new
new-IsPolicy d timezone windows notice horizon buffer p hw h =
    let indexed = index_windows windows no_windows in
    elim (Option-cases (d.parse_timezone (trim timezone))) [
      | inl e ↦ cc (rw e at h)
      | inr (tz, e) ↦ elim (Result-cases (validate_durations notice horizon buffer)) [
        | inr (x, f) ↦ cc (rw (e, f) at h)
        | inl (u, f) ↦ elim (Result-cases (check_days indexed)) [
          | inr (x, g) ↦ cc (rw (e, f, g) at h)
          | inl (days, g) ↦
              let (n, z, b) = validate_durations_sound notice horizon buffer f in
              let (days_ok, same) =
                check_days_sound indexed days
                  (All-index_windows windows no_windows hw
                    (tt, (tt, (tt, (tt, (tt, (tt, (tt, tt))))))))
                  g in
              subst
                (λ (q : AvailabilityPolicy _).
                  IsPolicy q
                  × (q.timezone_name ≡ trim timezone)
                  × (d.parse_timezone (trim timezone) ≡ some q.timezone))
                (ok-injective (rw (e, f, g) at h))
                (
                  record {
                    seven = omega (arith, same, length-index_windows windows no_windows);
                    days = days_ok;
                    notice = n;
                    horizon = z;
                    buffer = b;
                  },
                  refl,
                  e,
                )
        ]
      ]
    ]
