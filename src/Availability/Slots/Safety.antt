-- ===== src/Availability/Slots/Safety.antt =====
-- src/pa/availability.rs: the slots that the loops of `available_slots` push.
use agent_voice.Common.{
  ℕ, zero, suc, ◌+◌, ◌*◌, ◌%◌, ◌≤◌, ◌<◌, ◌≡◌, refl, ap, ◌∙◌, none, some, List, [], ◌∷◌, ◌++◌, leb,
  ltb, ltb→lt, ◌==◌, All, All-append, length, length-append, arith, Bool-cases, Option-cases, inl,
  inr, ◌⊎◌,
}
use mathlib.Core.Path.{subst}
use mathlib.Core.List.{Memᴰ}
use agent_voice.Common.Results.{ok, ◌>>=◌, ok-injective, Result-cases}
use agent_voice.Availability.Errors.{AvailabilityResult}
use agent_voice.Availability.Dates.{Dates, DatesLaws, grid_ns, day_ns}
use agent_voice.Availability.Grid.{ceil_window_grid}
use agent_voice.Availability.Grid.Bounds.{ceil_window_grid_bounds}
use agent_voice.Availability.Policy.{WorkingWindow}
use agent_voice.Availability.Slots.{
  Verdict, skip, take, stop, Search, consider, Flow, more, full, unfinished, Step, halt, go_on,
  collect, window_rounds, window_loop, windows_loop, date_loop, resume,
}
use agent_voice.Availability.Slots.Candidate.{IsChosen, consider_sound}

module _ {Tz : Type 0} (d : Dates Tz) (q : Search Tz) where
  -- A slot of one window: its local start is a quarter hour within the window.
  pub record InWindow (date : ℕ) (w : WorkingWindow) (start : ℕ) : Type 0 where
    pub chosen : IsChosen d q date w.ends_at start
    pub from_start : date * day_ns + w.starts_at ≤ d.to_local q.timezone start
    pub before_end : d.to_local q.timezone start < date * day_ns + w.ends_at
    pub on_grid : d.to_local q.timezone start % grid_ns ≡ 0
    pub after_lead : q.rounded_lead_local ≤ d.to_local q.timezone start

  -- A slot of one of the windows of its date.
  abbrev pub InSomeWindow : (ℕ → List WorkingWindow) → ℕ → Type 0
  InSomeWindow windows_of start =
      (date : ℕ) × (w : WorkingWindow) × Memᴰ w (windows_of (d.weekday date))
      × InWindow date w start

  -- How the loop over dates goes on.
  abbrev pub next_date : (ℕ → List WorkingWindow) → ℕ → ℕ → ℕ → List ℕ → AvailabilityResult Flow
  next_date windows_of final fuel date slots = elim (d.succ_opt date) [
    | none ↦ ok (more slots)
    | some next ↦ date_loop d q windows_of final fuel next slots
  ]

  -- What a loop returns: slots with the property, at most `limit`, and fewer if it goes on.
  abbrev pub FlowAll : (ℕ → Type 0) → Flow → Type 0
  FlowAll P (more slots) = All P slots × (length slots < q.limit)
  FlowAll P (full slots) = All P slots × (length slots ≤ q.limit)
  FlowAll P unfinished = Unit {0}

  abbrev StepAll : (ℕ → Type 0) → Step → Type 0
  StepAll P (halt flow) = FlowAll P flow
  StepAll P (go_on slots) = All P slots × (length slots < q.limit)

  StepAll-collect :
      (P : ℕ → Type 0) (v : Verdict) (slots : List ℕ)
      → ((s : ℕ) → v ≡ take s → P s)
      → All P slots
      → length slots < q.limit
      → StepAll P (collect q.limit v slots)
  unfolding collect
  StepAll-collect P skip slots hv h l = (h, l)
  StepAll-collect P stop slots hv h l = (h, l)
  StepAll-collect P (take s) slots hv h l =
      let slots' = slots ++ s ∷ [] in
      let h' : All P slots' = All-append P slots (s ∷ []) h (hv s refl, tt) in
      let n = length-append slots (s ∷ []) in
      elim (Bool-cases (length slots' == q.limit)) [
        | inl e ↦ rw e (h', omega (arith, n))
        | inr e ↦ rw e (h', ground (arith, n))
      ]

-- To split on a computed step, flow or option and keep the equation.
pub Step-cases :
    (step : Step) → ((flow : Flow) × (step ≡ halt flow)) ⊎ ((slots : List ℕ) × (step ≡ go_on slots))
Step-cases (halt flow) = inl (flow, refl)
Step-cases (go_on slots) = inr (slots, refl)

module _ {Tz : Type 0} (d : Dates Tz) (laws : DatesLaws d) (q : Search Tz) where
  module _ (date : ℕ) (w : WorkingWindow) where
    pushed :
        (local s : ℕ)
        → date * day_ns + w.starts_at ≤ local
        → local < date * day_ns + w.ends_at
        → local % grid_ns ≡ 0
        → consider d q date w.ends_at local ≡ ok (take s)
        → InWindow d q date w s
    pushed local s b l g h =
        let (chosen, lead, same) = consider_sound d laws q date w.ends_at local s h in
        record {
          chosen = chosen;
          from_start = rw same b;
          before_end = rw same l;
          on_grid = rw same g;
          after_lead = rw same lead;
        }

    window_loop_sound :
        (P : ℕ → Type 0) (sub : (s : ℕ) → InWindow d q date w s → P s) (fuel local : ℕ)
        (slots : List ℕ) (flow : Flow)
        → date * day_ns + w.starts_at ≤ local
        → local % grid_ns ≡ 0
        → All P slots
        → length slots < q.limit
        → window_loop d q fuel date w.ends_at local slots ≡ ok flow
        → FlowAll d q P flow
    unfolding window_loop
    window_loop_sound P sub zero local slots flow b g h l e =
        subst (FlowAll d q P) (ok-injective e) tt
    window_loop_sound P sub (suc fuel) local slots flow b g h l run =
        elim (Bool-cases (ltb local (date * day_ns + w.ends_at))) [
          | inr e ↦ subst (FlowAll d q P) (ok-injective (rw (e, window_loop) at run)) (h, l)
          | inl e ↦ elim (Result-cases (consider d q date w.ends_at local)) [
            | inr (x, f) ↦ cc (rw (e, f, window_loop) at run)
            | inl (v, f) ↦
                let after : StepAll d q P (collect q.limit v slots) =
                  StepAll-collect d q P v slots
                    (λ s same. sub s (pushed local s b (ltb→lt _ _ e) g (f ∙ ap ok same))) h l in
                elim (Step-cases (collect q.limit v slots)) [
                  | inl (fl, c) ↦
                      subst (FlowAll d q P) (ok-injective (rw (e, f, c, window_loop, ◌>>=◌) at run))
                        (rw c at after)
                  | inr (ss, c) ↦
                      let (h', l') = rw c at after in
                      elim (Option-cases (d.checked_add_signed local grid_ns)) [
                        | inl o ↦
                            subst (FlowAll d q P)
                              (ok-injective (rw (e, f, c, o, window_loop, ◌>>=◌) at run)) (h', l')
                        | inr (next, o) ↦
                            let step = laws.add_signed_next local grid_ns next o in
                            window_loop_sound P sub fuel next ss flow (omega arith) (omega arith) h'
                              l' (rw (e, f, c, o, window_loop, ◌>>=◌) at run)
                      ]
                ]
          ]
        ]

  resume_sound :
      (P : ℕ → Type 0) (next : List ℕ → AvailabilityResult Flow) (inner flow : Flow)
      → ((slots : List ℕ)
          → All P slots
          → length slots < q.limit
          → next slots ≡ ok flow
          → FlowAll d q P flow)
      → FlowAll d q P inner
      → resume next inner ≡ ok flow
      → FlowAll d q P flow
  unfolding resume
  resume_sound P next (more slots) flow go h run = go slots h.0 h.1 run
  resume_sound P next (full slots) flow go h run = subst (FlowAll d q P) (ok-injective run) h
  resume_sound P next unfinished flow go h run = subst (FlowAll d q P) (ok-injective run) tt

  windows_loop_sound :
      (windows_of : ℕ → List WorkingWindow) (date : ℕ) (ws : List WorkingWindow)
      → ((w : WorkingWindow) → Memᴰ w ws → Memᴰ w (windows_of (d.weekday date)))
      → (slots : List ℕ) (flow : Flow) → All (InSomeWindow d q windows_of) slots
      → length slots < q.limit
      → windows_loop d q date ws slots ≡ ok flow
      → FlowAll d q (InSomeWindow d q windows_of) flow
  unfolding windows_loop
  windows_loop_sound windows_of date [] sub slots flow h l run =
      subst (FlowAll d q _) (ok-injective run) (h, l)
  windows_loop_sound windows_of date (w ∷ ws) sub slots flow h l run =
      let later = λ (v : WorkingWindow) (m : Memᴰ v ws). sub v (Memᴰ.tail m) in
      elim (Option-cases (ceil_window_grid date w.starts_at)) [
        | inl e ↦
            windows_loop_sound windows_of date ws later slots flow h l (rw (e, windows_loop) at run)
        | inr (first, e) ↦
            let (b, _, g, _) = ceil_window_grid_bounds date w.starts_at first e in
            elim (Result-cases (window_loop d q window_rounds date w.ends_at first slots)) [
              | inr (x, f) ↦ cc (rw (e, f, windows_loop, ◌>>=◌) at run)
              | inl (fl, f) ↦
                  resume_sound (InSomeWindow d q windows_of) (λ ss. windows_loop d q date ws ss) fl
                    flow (λ ss h' l' r. windows_loop_sound windows_of date ws later ss flow h' l' r)
                    (window_loop_sound date w (InSomeWindow d q windows_of)
                      (λ s inside. (date, w, sub w (Memᴰ.head refl), inside)) window_rounds first
                      slots fl b g h l f)
                    (rw (e, f, windows_loop, ◌>>=◌) at run)
            ]
      ]

  -- Whatever slots the loop over dates returns, each lies in a window of its date and satisfies the
  -- policy, and there are at most `limit`.
  pub date_loop_sound :
      (windows_of : ℕ → List WorkingWindow) (final_date fuel date : ℕ) (slots : List ℕ)
      (flow : Flow)
      → All (InSomeWindow d q windows_of) slots
      → length slots < q.limit
      → date_loop d q windows_of final_date fuel date slots ≡ ok flow
      → FlowAll d q (InSomeWindow d q windows_of) flow
  unfolding date_loop
  date_loop_sound windows_of final zero date slots flow h l run =
      subst (FlowAll d q _) (ok-injective run) tt
  date_loop_sound windows_of final (suc fuel) date slots flow h l run =
      let ws = windows_of (d.weekday date) in
      elim (Bool-cases (leb date final)) [
        | inr e ↦ subst (FlowAll d q _) (ok-injective (rw (e, date_loop) at run)) (h, l)
        | inl e ↦ elim (Result-cases (windows_loop d q date ws slots)) [
          | inr (x, f) ↦ cc (rw (e, f, date_loop, ◌>>=◌) at run)
          | inl (fl, f) ↦
              resume_sound (InSomeWindow d q windows_of) (next_date d q windows_of final fuel date)
                fl flow
                (λ ss h' l' r. elim (Option-cases (d.succ_opt date)) [
                  | inl o ↦ subst (FlowAll d q _) (ok-injective (rw (o, next_date) at r)) (h', l')
                  | inr (next, o) ↦
                      date_loop_sound windows_of final fuel next ss flow h' l'
                        (rw (o, next_date) at r)
                ])
                (windows_loop_sound windows_of date ws (λ w m. m) slots fl h l f)
                (rw (e, f, date_loop, ◌>>=◌) at run)
        ]
      ]
