-- ===== src/Sigv4/Headers/Values.antt =====
-- src/pa/sigv4.rs: `normalize_header_value` on visible ASCII, and the bytes of a timestamp.
use agent_voice.Common.{
  ℕ, suc, zero, ◌+◌, ◌≤◌, ◌<◌, ◌≡◌, refl, sym, ap, Bool, true, false, ◌&&◌, ◌||◌, List, [], ◌∷◌,
  ◌++◌, leb, ◌==◌, if◌then◌else◌, length, get_or, take, drop, all, Bytes, is_digit, arith,
}
use agent_voice.Common.Results.{ok, ◌>>=◌}
use agent_voice.Common.{Bool-cases, inl, inr, ◌∙◌}
use mathlib.Core.List.{append-nil, append_assoc}
use agent_voice.Sigv4.Timestamp.{validate_timestamp}
use agent_voice.Sigv4.Headers.{collapse, has_bad_control, normalize_header_value}

-- Visible ASCII.
abbrev is_visible : ℕ → Bool
is_visible c = leb 0x21 c && leb c 0x7e

collapse_visible :
    (s normalized : Bytes) → all is_visible s ≡ true → collapse s normalized false ≡ normalized ++ s
unfolding collapse
collapse_visible [] normalized h = sym (append-nil normalized)
collapse_visible (c ∷ s) normalized h =
    let plain : (c == b' ' || c == b'\t') ≡ false = ground arith in
    rw (plain, if◌then◌else◌)
      (collapse_visible s (normalized ++ c ∷ []) (ground arith)
        ∙ append_assoc normalized (c ∷ []) s)

no_control : (s : Bytes) → all is_visible s ≡ true → has_bad_control s ≡ false
unfolding has_bad_control
no_control [] h = refl
no_control (c ∷ []) h = ground arith
no_control (c ∷ next ∷ s) h = ground (arith, no_control (next ∷ s))

pub normalize_visible : (s : Bytes) → all is_visible s ≡ true → normalize_header_value s ≡ ok s
unfolding normalize_header_value
normalize_visible s h = rw (no_control s h, collapse_visible s [] h)

module _ {ℓ} {A : Type ℓ} where
  all-take-drop :
      (p : A → Bool) (n : ℕ) (xs : List A)
      → all p (take n xs) ≡ true
      → all p (drop n xs) ≡ true
      → all p xs ≡ true
  all-take-drop p zero xs t d = d
  all-take-drop p (suc n) [] t d = refl
  all-take-drop p (suc n) (x ∷ xs) t d = ground (arith, all-take-drop p n xs)

  drop-get_or :
      (n : ℕ) (xs : List A) (d : A) → n < length xs → drop n xs ≡ get_or xs n d ∷ drop (suc n) xs
  drop-get_or n [] d h = ground arith
  drop-get_or zero (x ∷ xs) d h = refl
  drop-get_or (suc n) (x ∷ xs) d h = drop-get_or n xs d (omega arith)

  drop-nil : (n : ℕ) → drop {A = A} n [] ≡ []
  drop-nil zero = refl
  drop-nil (suc n) = refl

  drop-drop : (m n k : ℕ) (xs : List A) → k ≡ n + m → drop m (drop n xs) ≡ drop k xs
  drop-drop m zero k xs h = ap (λ i. drop i xs) (omega arith)
  drop-drop m (suc n) k [] h = rw (drop-nil m, drop-nil k)
  drop-drop m (suc n) zero (x ∷ xs) h = ground arith
  drop-drop m (suc n) (suc k) (x ∷ xs) h = drop-drop m n k xs (omega arith)

  drop_all : (n : ℕ) (xs : List A) → length xs ≤ n → drop n xs ≡ []
  drop_all zero [] h = refl
  drop_all (suc n) [] h = refl
  drop_all zero (x ∷ xs) h = ground arith
  drop_all (suc n) (x ∷ xs) h = drop_all n xs (omega arith)

and-true : (a b : Bool) → (a && b) ≡ true → (a ≡ true) × (b ≡ true)
and-true true true h = (refl, refl)
and-true true false h = cc
and-true false b h = cc

all_digits_visible : (s : Bytes) → all is_digit s ≡ true → all is_visible s ≡ true
all_digits_visible [] h = refl
all_digits_visible (c ∷ s) h = ground (arith, all_digits_visible s)

-- The bytes of a timestamp are visible: digits, `T` and `Z`.
module _ (timestamp date : Bytes) (valid : validate_timestamp timestamp ≡ ok date) where
  abbrev marks : Bool
  marks = length timestamp == 16 && (get_or timestamp 8 0 == b'T' && get_or timestamp 15 0 == b'Z')

  abbrev digits : Bool
  digits = all is_digit (take 8 timestamp) && all is_digit (take 6 (drop 9 timestamp))

  passes : (marks && digits) ≡ true
  unfolding validate_timestamp
  passes = elim (Bool-cases (marks && digits)) [ inl e ↦ e | inr e ↦ cc (rw (e, ◌>>=◌) at valid) ]

  pub timestamp_visible : all is_visible timestamp ≡ true
  timestamp_visible =
      let (m, d) = and-true marks digits passes in
      let (days, times) =
        and-true (all is_digit (take 8 timestamp)) (all is_digit (take 6 (drop 9 timestamp))) d in
      let len : length timestamp ≡ 16 = ground arith in
      let sep : get_or timestamp 8 0 ≡ b'T' = ground arith in
      let zulu : get_or timestamp 15 0 ≡ b'Z' = ground arith in
      let end : all is_visible (drop 15 timestamp) ≡ true =
        rw (drop-get_or 15 timestamp 0 (omega arith), drop_all 16 timestamp (omega arith), zulu)
          refl in
      let time : all is_visible (drop 9 timestamp) ≡ true =
        all-take-drop is_visible 6 (drop 9 timestamp)
          (all_digits_visible (take 6 (drop 9 timestamp)) times)
          (rw (drop-drop 6 9 15 timestamp refl) end) in
      let tail : all is_visible (drop 8 timestamp) ≡ true =
        rw (drop-get_or 8 timestamp 0 (omega arith), sep) time in
      all-take-drop is_visible 8 timestamp (all_digits_visible (take 8 timestamp) days) tail
