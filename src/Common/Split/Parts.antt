-- ===== src/Common/Split/Parts.antt =====
-- The parts that `split` gives.
use mathlib.Core.Path.{◌≡◌, refl, sym, ◌∙◌, ap}
use mathlib.Core.Bool.{false}
use mathlib.Core.List.{List, [], ◌∷◌}
use mathlib.Core.Logic.{inl, inr}
use Prim.Native.Nat.{ℕ}
use agent_voice.Common.Tests.{◌==◌, ==_iff, Bool-cases}
use agent_voice.Common.Lists.{any, All}
use agent_voice.Common.Ascii.{Bytes}
use agent_voice.Common.Split.{extend_first, split, join}

module _ (sep : ℕ) where
  abbrev pub LacksSeparator : Bytes → Type 0
  LacksSeparator part = any (λ c. c == sep) part ≡ false

  abbrev NotNil : List Bytes → Type 0
  NotNil [] = ⊥
  NotNil (part ∷ parts) = Unit

  extend_first-NotNil : (c : ℕ) (parts : List Bytes) → NotNil (extend_first c parts)
  unfolding extend_first
  extend_first-NotNil c [] = tt
  extend_first-NotNil c (part ∷ parts) = tt

  split-NotNil : (s : Bytes) → NotNil (split sep s)
  unfolding split
  split-NotNil [] = tt
  split-NotNil (c ∷ s) = elim (Bool-cases (c == sep)) [
    | inl e ↦ rw e tt
    | inr e ↦ rw e (extend_first-NotNil c (split sep s))
  ]

  extend_first-LacksSeparator :
      (c : ℕ) (parts : List Bytes)
      → (c == sep) ≡ false
      → All LacksSeparator parts
      → All LacksSeparator (extend_first c parts)
  unfolding extend_first
  extend_first-LacksSeparator c [] h _ = (rw h refl, tt)
  extend_first-LacksSeparator c (part ∷ parts) h (hp, hs) = (rw (h, hp) refl, hs)

  pub split-LacksSeparator : (s : Bytes) → All LacksSeparator (split sep s)
  unfolding split
  split-LacksSeparator [] = (refl, tt)
  split-LacksSeparator (c ∷ s) = elim (Bool-cases (c == sep)) [
    | inl e ↦ rw e (refl, split-LacksSeparator s)
    | inr e ↦ rw e (extend_first-LacksSeparator c (split sep s) e (split-LacksSeparator s))
  ]

  join_empty :
      (parts : List Bytes)
      → NotNil parts
      → join (sep ∷ []) ([] ∷ parts) ≡ sep ∷ join (sep ∷ []) parts
  unfolding join
  join_empty [] n = absurd n
  join_empty (part ∷ parts) n = refl

  join-extend_first :
      (c : ℕ) (parts : List Bytes)
      → join (sep ∷ []) (extend_first c parts) ≡ c ∷ join (sep ∷ []) parts
  unfolding join extend_first
  join-extend_first c [] = refl
  join-extend_first c (part ∷ []) = refl
  join-extend_first c (part ∷ next ∷ parts) = refl

  pub join-split : (s : Bytes) → join (sep ∷ []) (split sep s) ≡ s
  unfolding split join
  join-split [] = refl
  join-split (c ∷ s) = elim (Bool-cases (c == sep)) [
    | inl e ↦ rw e (
        join_empty (split sep s) (split-NotNil s)
        ∙ ap (λ t. sep ∷ t) (join-split s)
        ∙ ap (λ d. d ∷ s) (sym ((==_iff c sep).0 e)))
    | inr e ↦ rw e (join-extend_first c (split sep s) ∙ ap (λ t. c ∷ t) (join-split s))
  ]
