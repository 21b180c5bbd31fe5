-- ===== src/Availability/Slots/Fuel.antt =====
-- src/pa/availability.rs: the loops of `available_slots` and their fuel.
use mathlib.Core.Path.{subst}
use agent_voice.Common.{
  ℕ, zero, suc, ◌+◌, ◌-◌, ◌*◌, ◌/◌, ◌≤◌, ◌≡◌, ◌≢◌, none, List, [], ◌∷◌, leb, ltb, ltb→lt, leb→le,
  ◌==◌, get_or, All, length, ◌++◌, arith, Bool-cases, Option-cases, inl, inr,
}
use agent_voice.Common.Results.{ok, ◌>>=◌, ok-injective, Result-cases}
use agent_voice.Common.Int.{ℤ}
use agent_voice.Availability.Errors.{AvailabilityResult}
use agent_voice.Availability.Dates.{Dates, DatesLaws, grid_ns, day_ns}
use agent_voice.Availability.Busy.{BusyInterval}
use agent_voice.Availability.Grid.{ceil_window_grid, ceil_local_grid}
use agent_voice.Availability.Grid.Bounds.{ceil_window_grid_bounds, ceil_local_grid-none}
use agent_voice.Availability.Policy.{
  WorkingWindow, AvailabilityPolicy, working_windows, is_not_positive,
}
use agent_voice.Availability.Policy.Windows.{IsWindow, IsDay, IsPolicy}
use agent_voice.Availability.Slots.{
  Verdict, skip, take, stop, Search, consider, Flow, more, full, unfinished, halt, collect,
  window_rounds, window_loop, windows_loop, date_loop, resume, slots_of, search_of, run_search,
  available_slots,
}
use agent_voice.Availability.Slots.Safety.{Step-cases, next_date}
use agent_voice.Availability.Slots.Correct.{chrono_steps}

halt-injective : {f g : Flow} → halt f ≡ halt g → f ≡ g
halt-injective h = cc

abbrev Finished : Flow → Type 0
Finished (more slots) = Unit
Finished (full slots) = Unit
Finished unfinished = ⊥

halt-Finished :
    (limit : ℕ) (v : Verdict) (slots : List ℕ) (flow : Flow)
    → collect limit v slots ≡ halt flow
    → Finished flow
unfolding collect
halt-Finished limit skip slots flow h = cc
halt-Finished limit stop slots flow h = subst Finished (halt-injective h) tt
halt-Finished limit (take s) slots flow h = elim (Bool-cases (length (slots ++ s ∷ []) == limit)) [
  | inl e ↦ subst Finished (halt-injective (rw e at h)) tt
  | inr e ↦ cc (rw e at h)
]

resume-Finished :
    (next : List ℕ → AvailabilityResult Flow) (inner flow : Flow)
    → ((slots : List ℕ) → next slots ≡ ok flow → Finished flow)
    → Finished inner
    → resume next inner ≡ ok flow
    → Finished flow
unfolding resume
resume-Finished next (more slots) flow go h run = go slots run
resume-Finished next (full slots) flow go h run = subst Finished (ok-injective run) tt
resume-Finished next unfinished flow go h run = absurd h

module _ {Tz : Type 0} (d : Dates Tz) (laws : DatesLaws d) (q : Search Tz) where
  window_loop-Finished :
      (fuel date window_end local : ℕ) (slots : List ℕ) (flow : Flow)
      → date * day_ns + window_end ≤ local + fuel * grid_ns
      → window_loop d q (suc fuel) date window_end local slots ≡ ok flow
      → Finished flow
  unfolding window_loop
  window_loop-Finished zero date we local slots flow b run =
      elim (Bool-cases (ltb local (date * day_ns + we))) [
        | inr e ↦ subst Finished (ok-injective (rw (e, window_loop) at run)) tt
        | inl e ↦ let l = ltb→lt _ _ e in absurd (omega arith)
      ]
  window_loop-Finished (suc fuel) date we local slots flow b run =
      elim (Bool-cases (ltb local (date * day_ns + we))) [
        | inr e ↦ subst Finished (ok-injective (rw (e, window_loop) at run)) tt
        | inl e ↦ elim (Result-cases (consider d q date we local)) [
          | inr (x, f) ↦ cc (rw (e, f, window_loop) at run)
          | inl (v, f) ↦ elim (Step-cases (collect q.limit v slots)) [
            | inl (fl, c) ↦
                subst Finished (ok-injective (rw (e, f, c, window_loop, ◌>>=◌) at run))
                  (halt-Finished q.limit v slots fl c)
            | inr (ss, c) ↦ elim (Option-cases (d.checked_add_signed local grid_ns)) [
              | inl o ↦
                  subst Finished (ok-injective (rw (e, f, c, o, window_loop, ◌>>=◌) at run)) tt
              | inr (next, o) ↦
                  let step = laws.add_signed_next local grid_ns next o in
                  window_loop-Finished fuel date we next ss flow (omega arith)
                    (rw (e, f, c, o, window_loop, ◌>>=◌) at run)
            ]
          ]
        ]
      ]

  windows_loop-Finished :
      (date : ℕ) (ws : List WorkingWindow) (slots : List ℕ) (flow : Flow)
      → All IsWindow ws
      → windows_loop d q date ws slots ≡ ok flow
      → Finished flow
  unfolding windows_loop
  windows_loop-Finished date [] slots flow h run = subst Finished (ok-injective run) tt
  windows_loop-Finished date (w ∷ ws) slots flow (hw, hs) run =
      elim (Option-cases (ceil_window_grid date w.starts_at)) [
        | inl e ↦ windows_loop-Finished date ws slots flow hs (rw (e, windows_loop) at run)
        | inr (first, e) ↦
            let bounds = ceil_window_grid_bounds date w.starts_at first e in
            elim (Result-cases (window_loop d q window_rounds date w.ends_at first slots)) [
              | inr (x, f) ↦ cc (rw (e, f, windows_loop, ◌>>=◌) at run)
              | inl (fl, f) ↦
                  resume-Finished (λ ss. windows_loop d q date ws ss) fl flow
                    (λ ss r. windows_loop-Finished date ws ss flow hs r)
                    (window_loop-Finished 96 date w.ends_at first slots fl (omega arith) f)
                    (rw (e, f, windows_loop, ◌>>=◌) at run)
            ]
      ]

  date_loop-Finished :
      (windows_of : ℕ → List WorkingWindow) (final fuel date : ℕ) (slots : List ℕ) (flow : Flow)
      → ((weekday : ℕ) → All IsWindow (windows_of weekday))
      → final + 1 ≤ date + fuel
      → date_loop d q windows_of final (suc fuel) date slots ≡ ok flow
      → Finished flow
  unfolding date_loop
  date_loop-Finished windows_of final zero date slots flow hw b run =
      elim (Bool-cases (leb date final)) [
        | inr e ↦ subst Finished (ok-injective (rw (e, date_loop) at run)) tt
        | inl e ↦ let l = leb→le _ _ e in absurd (omega arith)
      ]
  date_loop-Finished windows_of final (suc fuel) date slots flow hw b run =
      let ws = windows_of (d.weekday date) in
      elim (Bool-cases (leb date final)) [
        | inr e ↦ subst Finished (ok-injective (rw (e, date_loop) at run)) tt
        | inl e ↦ elim (Result-cases (windows_loop d q date ws slots)) [
          | inr (x, f) ↦ cc (rw (e, f, date_loop, ◌>>=◌) at run)
          | inl (fl, f) ↦
              resume-Finished (next_date d q windows_of final (suc fuel) date) fl flow
                (λ ss r. elim (Option-cases (d.succ_opt date)) [
                  | inl o ↦ subst Finished (ok-injective (rw (o, next_date) at r)) tt
                  | inr (next, o) ↦
                      let after = laws.succ_opt_next date next o in
                      date_loop-Finished windows_of final fuel next ss flow hw (omega arith)
                        (rw (o, next_date) at r)
                ])
                (windows_loop-Finished date ws slots fl (hw (d.weekday date)) f)
                (rw (e, f, date_loop, ◌>>=◌) at run)
        ]
      ]

All-get_or :
    (days : List (List WorkingWindow)) (i : ℕ) → All IsDay days → All IsWindow (get_or days i [])
All-get_or [] i h = tt
All-get_or (day ∷ days) zero (h, hs) = h.0
All-get_or (day ∷ days) (suc i) (h, hs) = All-get_or days i hs

windows-IsWindow :
    {Tz : Type 0} (p : AvailabilityPolicy Tz)
    → IsPolicy p
    → (weekday : ℕ) → All IsWindow (working_windows p weekday)
unfolding working_windows
windows-IsWindow p valid weekday = All-get_or p.windows weekday valid.days

slots_of-ne-none : (flow : Flow) → Finished flow → slots_of flow ≢ none
unfolding slots_of
slots_of-ne-none (more slots) h e = cc
slots_of-ne-none (full slots) h e = cc
slots_of-ne-none unfinished h e = h

module _ {Tz : Type 0} (d : Dates Tz) (laws : DatesLaws d) (p : AvailabilityPolicy Tz)
    (valid : IsPolicy p) (duration : ℤ) (outlook google : List BusyInterval) (limit : ℕ) where
  run_search-ne-none :
      (now_utc horizon_utc lead_utc lead horizon : ℕ)
      → run_search d p now_utc horizon_utc lead_utc lead horizon duration outlook google limit
        ≢ ok none
  unfolding run_search
  run_search-ne-none now_utc horizon_utc lead_utc lead horizon run =
      let q = λ (rounded : ℕ). search_of d p lead horizon rounded duration outlook google limit in
      let date = d.to_local p.timezone now_utc / day_ns in
      let final = d.to_local p.timezone horizon_utc / day_ns in
      elim (Option-cases (ceil_local_grid d (d.to_local p.timezone lead_utc))) [
        | inl e ↦
            let (next, s) = laws.succ_opt_local p.timezone lead_utc in
            cc (s, ceil_local_grid-none d (d.to_local p.timezone lead_utc) e)
        | inr (rounded, e) ↦
            elim (Result-cases (
              date_loop d (q rounded) (working_windows p) final (suc (final + 1 - date)) date [])) [
                | inr (x, f) ↦ cc (rw (e, run_search, f, ◌>>=◌) at run)
                | inl (flow, f) ↦
                    slots_of-ne-none flow
                      (date_loop-Finished d laws (q rounded) (working_windows p) final
                        (final + 1 - date) date [] flow (windows-IsWindow p valid) (omega arith) f)
                      (ok-injective (rw (e, run_search, f, ◌>>=◌) at run))
              ]
      ]

-- With a valid policy the search always ends within its fuel and without a panic: what it returns
-- is an error or a list of slots.
pub available_slots_fuel :
    {Tz : Type 0} (d : Dates Tz) (laws : DatesLaws d) (p : AvailabilityPolicy Tz)
    → IsPolicy p
    → (now : ℕ) (duration : ℤ) (outlook google : List BusyInterval) (limit : ℕ)
    → available_slots d p now duration outlook google limit ≢ ok none
unfolding available_slots
available_slots_fuel d laws p valid now duration outlook google limit run =
    elim (Bool-cases (is_not_positive duration)) [
      | inl y ↦ cc (rw y at run)
      | inr y ↦ elim (Bool-cases (limit == 0)) [
        | inl z ↦ cc (rw (y, z) at run)
        | inr z ↦ elim (Option-cases (d.checked_add now p.booking_horizon)) [
          | inl a ↦ cc (rw (y, z, a) at run)
          | inr (horizon, a) ↦ elim (Option-cases (d.checked_add now p.minimum_notice)) [
            | inl b ↦ cc (rw (y, z, a, b) at run)
            | inr (lead, b) ↦
                let (nu, hu, lu, run') =
                  chrono_steps d p now horizon lead duration outlook google limit
                    (rw (y, z, a, b) at run) in
                run_search-ne-none d laws p valid duration outlook google limit nu hu lu lead
                  horizon run'
          ]
        ]
      ]
    ]
