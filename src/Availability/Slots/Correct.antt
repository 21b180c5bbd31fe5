-- ===== src/Availability/Slots/Correct.antt =====
-- src/pa/availability.rs: the results of `available_slots`.
use mathlib.Core.Path.{subst}
use mathlib.Core.List.{Memᴰ}
use mathlib.Core.Option.{some-injective}
use agent_voice.Common.{
  ℕ, zero, suc, ◌+◌, ◌-◌, ◌*◌, ◌/◌, ◌%◌, ◌≤◌, ◌<◌, ◌≡◌, refl, Option, some, List, [], ◌∷◌, ◌⊎◌, inl,
  inr, ◌==◌, All, length, arith, Bool-cases, Option-cases,
}
use agent_voice.Common.Results.{ok, ◌>>=◌, ok_or, ok-injective, Result-cases}
use agent_voice.Common.Int.{ℤ, pos, negsuc, pos_part, ◌≤ℤ◌, ◌<ℤ◌}
use agent_voice.Availability.Errors.{date_time_overflow}
use agent_voice.Availability.Dates.{Dates, DatesLaws, grid_ns, day_ns}
use agent_voice.Availability.Busy.{BusyInterval}
use agent_voice.Availability.Busy.Merge.{FreeOf, FreeOf-merge_busy_intervals}
use agent_voice.Availability.Grid.{ceil_local_grid}
use agent_voice.Availability.Policy.{WorkingWindow, AvailabilityPolicy, working_windows}
use agent_voice.Availability.Policy.Windows.{IsPolicy}
use agent_voice.Availability.Slots.{
  Flow, more, full, unfinished, slots_of, search_of, date_loop, run_search, available_slots,
}
use agent_voice.Availability.Slots.Safety.{InSomeWindow, FlowAll, date_loop_sound}

module _ {Tz : Type 0} (d : Dates Tz) (p : AvailabilityPolicy Tz) where
  -- The meeting with the buffer around it ends before the interval or begins after it.
  abbrev pub ClearOf : ℕ → ℕ → BusyInterval → Type 0
  ClearOf start duration i =
      (start + duration + pos_part p.meeting_buffer ≤ i.starts_at)
      ⊎ (i.ends_at + pos_part p.meeting_buffer ≤ start)

  -- A start at which the policy and both calendars allow a meeting of the duration.
  pub record IsAvailable (now duration : ℕ) (outlook google : List BusyInterval) (start : ℕ)
      : Type 0 where
    pub notice : now + pos_part p.minimum_notice ≤ start
    pub horizon : start + duration ≤ now + pos_part p.booking_horizon
    pub date : ℕ
    pub window : WorkingWindow
    pub working : Memᴰ window (working_windows p (d.weekday date))
    pub on_grid : d.to_local p.timezone start % grid_ns ≡ 0
    pub begins : date * day_ns + window.starts_at ≤ d.to_local p.timezone start
    pub begins_before : d.to_local p.timezone start < date * day_ns + window.ends_at
    pub ends_on_date : d.to_local p.timezone (start + duration) / day_ns ≡ date
    pub ends : d.to_local p.timezone (start + duration) % day_ns ≤ window.ends_at
    pub clear_outlook : All (ClearOf start duration) outlook
    pub clear_google : All (ClearOf start duration) google

All-map {ℓ κ} :
    {A : Type ℓ} {P Q : A → Type κ} → ((x : A) → P x → Q x) → (xs : List A) → All P xs → All Q xs
All-map f [] h = tt
All-map f (x ∷ xs) (h, hs) = (f x h, All-map f xs hs)

nonnegative : (z : ℤ) → pos 0 ≤ℤ z → z ≡ pos (pos_part z)
nonnegative (pos n) h = refl
nonnegative (negsuc n) h = absurd (omega arith)

module _ {Tz : Type 0} (d : Dates Tz) (laws : DatesLaws d) (p : AvailabilityPolicy Tz)
    (valid : IsPolicy p) (now n : ℕ) (outlook google : List BusyInterval) (limit : ℕ) where
  clear_of :
      (s bs be : ℕ) (i : BusyInterval)
      → bs + pos_part p.meeting_buffer ≡ s
      → be ≡ s + suc n + pos_part p.meeting_buffer
      → FreeOf bs be i
      → ClearOf d p s (suc n) i
  clear_of s bs be i e f (inl h) = inl (omega arith)
  clear_of s bs be i e f (inr h) = inr (omega arith)

  slot-IsAvailable :
      (lead_time horizon_end rounded : ℕ)
      → lead_time ≡ now + pos_part p.minimum_notice
      → horizon_end ≡ now + pos_part p.booking_horizon
      → (s : ℕ)
      → InSomeWindow d
          (search_of d p lead_time horizon_end rounded (pos (suc n)) outlook google limit)
          (working_windows p)
          s
      → IsAvailable d p now (suc n) outlook google s
  unfolding search_of
  slot-IsAvailable lead horizon rounded el eh s (date, w, m, inside) =
      let chosen = inside.chosen in
      let ending = laws.add_pos s (suc n) chosen.end chosen.ends in
      let (bs, be, fs, fe, free) = chosen.free in
      let b = nonnegative p.meeting_buffer valid.buffer in
      let before = laws.sub_pos s (pos_part p.meeting_buffer) bs (rw b at fs) in
      let after = laws.add_pos chosen.end (pos_part p.meeting_buffer) be (rw b at fe) in
      let clear = λ (i : BusyInterval) (h : FreeOf bs be i).
        clear_of s bs be i before (omega (arith, after, ending)) h in
      let (fo, fg) = (FreeOf-merge_busy_intervals bs be (omega arith) outlook google).0 free in
      record {
        notice = rw (← el) chosen.lead;
        horizon = rw (← ending, ← eh) chosen.horizon;
        date = date;
        window = w;
        working = m;
        on_grid = inside.on_grid;
        begins = inside.from_start;
        begins_before = inside.before_end;
        ends_on_date = rw (← ending) chosen.within.0;
        ends = rw (← ending) chosen.within.1;
        clear_outlook = All-map clear outlook fo;
        clear_google = All-map clear google fg;
      }

  flow-IsAvailable :
      (lead_time horizon_end rounded : ℕ) (flow : Flow) (slots : List ℕ)
      → lead_time ≡ now + pos_part p.minimum_notice
      → horizon_end ≡ now + pos_part p.booking_horizon
      → FlowAll d
          (search_of d p lead_time horizon_end rounded (pos (suc n)) outlook google limit)
          (InSomeWindow d
            (search_of d p lead_time horizon_end rounded (pos (suc n)) outlook google limit)
            (working_windows p))
          flow
      → slots_of flow ≡ some slots
      → All (IsAvailable d p now (suc n) outlook google) slots × (length slots ≤ limit)
  unfolding search_of slots_of
  flow-IsAvailable lead horizon rounded (more ss) slots el eh (h, l) e =
      subst (λ x. All (IsAvailable d p now (suc n) outlook google) x × (length x ≤ limit))
        (some-injective _ _ e)
        (All-map (slot-IsAvailable lead horizon rounded el eh) ss h, omega arith)
  flow-IsAvailable lead horizon rounded (full ss) slots el eh (h, l) e =
      subst (λ x. All (IsAvailable d p now (suc n) outlook google) x × (length x ≤ limit))
        (some-injective _ _ e) (All-map (slot-IsAvailable lead horizon rounded el eh) ss h, l)
  flow-IsAvailable lead horizon rounded unfinished slots el eh h e = cc

  run-IsAvailable :
      (now_utc horizon_utc lead_utc lead_time horizon_end : ℕ) (slots : List ℕ)
      → 0 < limit
      → lead_time ≡ now + pos_part p.minimum_notice
      → horizon_end ≡ now + pos_part p.booking_horizon
      → run_search d p now_utc horizon_utc lead_utc lead_time horizon_end
          (pos (suc n))
          outlook
          google
          limit
        ≡ ok (some slots)
      → All (IsAvailable d p now (suc n) outlook google) slots × (length slots ≤ limit)
  unfolding run_search
  run-IsAvailable now_utc horizon_utc lead_utc lead horizon slots l el eh run =
      let q =
        λ (rounded : ℕ). search_of d p lead horizon rounded (pos (suc n)) outlook google limit in
      let date = d.to_local p.timezone now_utc / day_ns in
      let final = d.to_local p.timezone horizon_utc / day_ns in
      elim (Option-cases (ceil_local_grid d (d.to_local p.timezone lead_utc))) [
        | inl e ↦ cc (rw (e, run_search) at run)
        | inr (rounded, e) ↦
            elim (Result-cases (
              date_loop d (q rounded) (working_windows p) final (suc (final + 1 - date)) date [])) [
                | inr (x, f) ↦ cc (rw (e, run_search, f, ◌>>=◌) at run)
                | inl (flow, f) ↦
                    flow-IsAvailable lead horizon rounded flow slots el eh
                      (date_loop_sound d laws (q rounded) (working_windows p) final
                        (suc (final + 1 - date)) date [] flow tt (unfold search_of in l) f)
                      (ok-injective (rw (e, run_search, f, ◌>>=◌) at run))
              ]
      ]

positive : (z : ℤ) → pos 0 <ℤ z → z ≡ pos (pos_part z)
positive (pos n) h = refl
positive (negsuc n) h = absurd (omega arith)

pub chrono_steps :
    {Tz : Type 0} (d : Dates Tz) (p : AvailabilityPolicy Tz) (now horizon lead : ℕ) (duration : ℤ)
    (outlook google : List BusyInterval) (limit : ℕ) {r : Option (List ℕ)}
    → (do
      now_utc ← ok_or (d.chrono_utc now) date_time_overflow
      horizon_utc ← ok_or (d.chrono_utc horizon) date_time_overflow
      lead_utc ← ok_or (d.chrono_utc lead) date_time_overflow
      run_search d p now_utc horizon_utc lead_utc lead horizon duration outlook google limit)
      ≡ ok r
    → (now_utc : ℕ) × (horizon_utc : ℕ) × (lead_utc : ℕ) × (run_search d p now_utc horizon_utc
          lead_utc lead horizon duration outlook google limit
        ≡ ok r)
chrono_steps d p now horizon lead duration outlook google limit run =
    elim (Option-cases (d.chrono_utc now)) [
      | inl a ↦ cc (rw a at run)
      | inr (nu, a) ↦ elim (Option-cases (d.chrono_utc horizon)) [
        | inl b ↦ cc (rw (a, b) at run)
        | inr (hu, b) ↦ elim (Option-cases (d.chrono_utc lead)) [
          | inl c ↦ cc (rw (a, b, c) at run)
          | inr (lu, c) ↦ (nu, hu, lu, rw (a, b, c) at run)
        ]
      ]
    ]

-- Whenever a valid policy returns slots, there are at most `limit`, and each is a quarter hour, with
-- the notice and before the horizon of the policy, in a working window of its local date that also
-- holds its end, and clear of both calendars by the buffer of the policy.
pub available_slots_sound :
    {Tz : Type 0} (d : Dates Tz) (laws : DatesLaws d) (p : AvailabilityPolicy Tz)
    → IsPolicy p
    → (now : ℕ) (duration : ℤ) (outlook google : List BusyInterval) (limit : ℕ) (slots : List ℕ)
    → available_slots d p now duration outlook google limit ≡ ok (some slots)
    → All (IsAvailable d p now (pos_part duration) outlook google) slots × (length slots ≤ limit)
unfolding available_slots
available_slots_sound d laws p valid now (pos zero) outlook google limit slots run = cc
available_slots_sound d laws p valid now (negsuc n) outlook google limit slots run = cc
available_slots_sound d laws p valid now (pos (suc n)) outlook google limit slots run =
    elim (Bool-cases (limit == 0)) [
      | inl z ↦
          subst (λ x. All (IsAvailable d p now (suc n) outlook google) x × (length x ≤ limit))
            (some-injective _ _ (ok-injective (rw z at run))) (tt, omega arith)
      | inr z ↦ elim (Option-cases (d.checked_add now p.booking_horizon)) [
        | inl a ↦ cc (rw (z, a) at run)
        | inr (horizon, a) ↦ elim (Option-cases (d.checked_add now p.minimum_notice)) [
          | inl b ↦ cc (rw (z, a, b) at run)
          | inr (lead, b) ↦
              let (nu, hu, lu, run') =
                chrono_steps d p now horizon lead (pos (suc n)) outlook google limit
                  (rw (z, a, b) at run) in
              run-IsAvailable d laws p valid now n outlook google limit nu hu lu lead horizon slots
                (ground arith)
                (laws.add_pos now _ lead (rw (nonnegative p.minimum_notice valid.notice) at b))
                (laws.add_pos now _ horizon (rw (positive p.booking_horizon valid.horizon) at a))
                run'
        ]
      ]
    ]
