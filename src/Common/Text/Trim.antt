-- ===== src/Common/Text/Trim.antt =====
-- `str::trim` on a trimmed text.
use mathlib.Core.Path.{◌≡◌, refl, ◌∙◌, ap}
use mathlib.Core.Bool.{false, ◌&&◌}
use mathlib.Core.List.{[], ◌∷◌}
use mathlib.Core.Logic.{inl, inr}
use agent_voice.Common.Tests.{Bool-cases}
use agent_voice.Common.Text.{Text, is_whitespace, is_empty, trim_start, trim_end, trim}

abbrev StartsPlain : Text → Type 0
StartsPlain [] = Unit
StartsPlain (c ∷ cs) = is_whitespace c ≡ false

trim_start-StartsPlain : (s : Text) → StartsPlain (trim_start s)
unfolding trim_start
trim_start-StartsPlain [] = tt
trim_start-StartsPlain (c ∷ cs) = elim (Bool-cases (is_whitespace c)) [
  | inl e ↦ rw e (trim_start-StartsPlain cs)
  | inr e ↦ rw e e
]

trim_start-id : (s : Text) → StartsPlain s → trim_start s ≡ s
unfolding trim_start
trim_start-id [] h = refl
trim_start-id (c ∷ cs) h = rw h refl

trim_end-StartsPlain : (s : Text) → StartsPlain s → StartsPlain (trim_end s)
unfolding trim_end
trim_end-StartsPlain [] h = tt
trim_end-StartsPlain (c ∷ cs) h = elim (Bool-cases (is_empty (trim_end cs) && is_whitespace c)) [
  | inl e ↦ rw e tt
  | inr e ↦ rw e h
]

trim_end_idempotent : (s : Text) → trim_end (trim_end s) ≡ trim_end s
unfolding trim_end
trim_end_idempotent [] = refl
trim_end_idempotent (c ∷ cs) = elim (Bool-cases (is_empty (trim_end cs) && is_whitespace c)) [
  | inl e ↦ rw e refl
  | inr e ↦ rw e (rw (trim_end_idempotent cs, e) refl)
]

pub trim_idempotent : (s : Text) → trim (trim s) ≡ trim s
unfolding trim
trim_idempotent s =
    ap trim_end (
      trim_start-id (trim_end (trim_start s))
        (trim_end-StartsPlain (trim_start s) (trim_start-StartsPlain s)))
    ∙ trim_end_idempotent (trim_start s)
