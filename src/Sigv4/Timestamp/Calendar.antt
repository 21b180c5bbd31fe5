-- ===== src/Sigv4/Timestamp/Calendar.antt =====
-- The Gregorian calendar, and days_in_month of src/pa/sigv4.rs.
use agent_voice.Common.{
  ℕ, ◌%◌, ◌≤◌, ◌<◌, ◌≡◌, ◌≢◌, ◌⊎◌, inl, inr, refl, not, ◌&&◌, Bool-cases, leb, leb→le, le→leb,
  ==_iff, true, false, ◌||◌, ◌==◌, arith,
}
use agent_voice.Sigv4.Timestamp.{days_in_month}

-- February has a 29th in the years that 4 divides, the centuries only where 400 does.
abbrev pub IsLeap : ℕ → Type 0
IsLeap year = ((year % 4 ≡ 0) × (year % 100 ≢ 0)) ⊎ (year % 400 ≡ 0)

-- The months of 31 days.
abbrev pub IsLong : ℕ → Type 0
IsLong month =
    (month ≡ 1)
    ⊎ ((month ≡ 3) ⊎ ((month ≡ 5) ⊎ ((month ≡ 7) ⊎ ((month ≡ 8) ⊎ ((month ≡ 10) ⊎ (month ≡ 12))))))

-- The month of the Gregorian calendar reaches the day.
abbrev pub Reaches : ℕ → ℕ → ℕ → Type 0
Reaches year month day =
    (day ≤ 28)
    ⊎ (((day ≡ 29) × ((month ≢ 2) ⊎ IsLeap year))
        ⊎ (((day ≡ 30) × (month ≢ 2)) ⊎ ((day ≡ 31) × IsLong month)))

pub record IsDate (year month day : ℕ) : Type 0 where
  pub year_lt : year < 10000
  pub month_from : 1 ≤ month
  pub month_to : month ≤ 12
  pub day_from : 1 ≤ day
  pub day_to : Reaches year month day

long_or_short :
    (month : ℕ)
    → IsLong month
    → (month == 2 || ((month == 4 || month == 6) || (month == 9 || month == 11))) ≡ false
long_or_short month long = ground arith

pub Reaches-bound : (year month day : ℕ) → Reaches year month day → day ≤ days_in_month year month
unfolding days_in_month
Reaches-bound year month day (inl early) = ground arith
Reaches-bound year month day (inr (inl (last, inl other))) = ground arith
Reaches-bound year month day (inr (inl (last, inr (inl (four, century))))) = ground arith
Reaches-bound year month day (inr (inl (last, inr (inr four_hundred)))) = ground arith
Reaches-bound year month day (inr (inr (inl (last, other)))) = ground arith
Reaches-bound year month day (inr (inr (inr (last, long)))) =
    let full = long_or_short month long in ground arith

IsLeap-of :
    (year : ℕ) → (year % 400 == 0 || (year % 4 == 0 && not (year % 100 == 0))) ≡ true → IsLeap year
IsLeap-of year h = elim (Bool-cases (year % 400 == 0)) [
  | inl e ↦ inr ((==_iff (year % 400) 0).0 e)
  | inr e ↦ inl (ground arith, ground arith)
]

IsLong-of :
    (month : ℕ)
    → 1 ≤ month
    → month ≤ 12
    → (month == 2 || ((month == 4 || month == 6) || (month == 9 || month == 11))) ≡ false
    → IsLong month
IsLong-of month from to full = elim (Bool-cases (month == 1)) [
  | inl e ↦ inl (ground arith)
  | inr e1 ↦ elim (Bool-cases (month == 3)) [
    | inl e ↦ inr (inl (ground arith))
    | inr e3 ↦ elim (Bool-cases (month == 5)) [
      | inl e ↦ inr (inr (inl (ground arith)))
      | inr e5 ↦ elim (Bool-cases (month == 7)) [
        | inl e ↦ inr (inr (inr (inl (ground arith))))
        | inr e7 ↦ elim (Bool-cases (month == 8)) [
          | inl e ↦ inr (inr (inr (inr (inl (ground arith)))))
          | inr e8 ↦ elim (Bool-cases (month == 10)) [
            | inl e ↦ inr (inr (inr (inr (inr (inl (ground arith))))))
            | inr e10 ↦ inr (inr (inr (inr (inr (inr (ground arith))))))
          ]
        ]
      ]
    ]
  ]
]

pub Reaches-of :
    (year month day : ℕ)
    → 1 ≤ month
    → month ≤ 12
    → day ≤ days_in_month year month
    → Reaches year month day
unfolding days_in_month
Reaches-of year month day from to bound = elim (Bool-cases (leb day 28)) [
  | inl early ↦ inl (leb→le _ _ early)
  | inr late ↦ elim (Bool-cases (month == 2)) [
    | inl feb ↦ elim (Bool-cases (year % 400 == 0 || (year % 4 == 0 && not (year % 100 == 0)))) [
      | inl leap ↦
          let top : day ≤ 29 = rw (feb, leap) at bound in
          inr (inl (ground arith, inr (IsLeap-of year leap)))
      | inr plain ↦
          let top : day ≤ 28 = rw (feb, plain) at bound in absurd (cc (late, le→leb _ _ top))
    ]
    | inr other ↦ elim (Bool-cases ((month == 4 || month == 6) || (month == 9 || month == 11))) [
      | inl short ↦
          let top : day ≤ 30 = rw (other, short) at bound in
          elim (Bool-cases (day == 29)) [
            | inl e ↦ inr (inl (ground arith, inl (ground arith)))
            | inr e ↦ inr (inr (inl (ground arith, ground arith)))
          ]
      | inr full ↦
          let top : day ≤ 31 = rw (other, full) at bound in
          elim (Bool-cases (day == 29)) [
            | inl e ↦ inr (inl (ground arith, inl (ground arith)))
            | inr e ↦ elim (Bool-cases (day == 30)) [
              | inl f ↦ inr (inr (inl (ground arith, ground arith)))
              | inr f ↦
                  inr (inr (inr (ground arith, IsLong-of month from to (rw (other, full) refl))))
            ]
          ]
    ]
  ]
]
