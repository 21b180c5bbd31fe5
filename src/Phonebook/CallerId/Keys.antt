-- ===== src/Phonebook/CallerId/Keys.antt =====
-- src/phonebook.rs: the keys that `normalize_caller_id` gives.
use agent_voice.Common.{
  ◌≡◌, refl, true, false, some, [], ◌∷◌, map, all, retain, to_lower, Bool-cases, inl, inr,
}
use mathlib.Core.Path.{subst}
use agent_voice.Common.Results.{some-injective}
use agent_voice.Common.Text.{Text, trim, is_empty}
use agent_voice.Phonebook.CallerId.{
  is_key_character, trim_matches, user_part, some_unless_empty, is_quote, is_withheld,
  normalize_caller_id,
}

pub record IsKey (id : Text) : Type 0 where
  pub present : is_empty id ≡ false
  pub plain : all is_key_character id ≡ true

retain_plain : (s : Text) → all is_key_character (retain is_key_character s) ≡ true
retain_plain [] = refl
retain_plain (c ∷ s) = elim (Bool-cases (is_key_character c)) [
  | inl e ↦ rw e (rw (e, retain_plain s) refl)
  | inr e ↦ rw e (retain_plain s)
]

some_unless_empty-IsKey :
    (s id : Text) → all is_key_character s ≡ true → some_unless_empty s ≡ some id → IsKey id
unfolding some_unless_empty
some_unless_empty-IsKey [] id plain h = cc
some_unless_empty-IsKey (c ∷ s) id plain h =
    subst IsKey (some-injective h) (record { present = refl; plain = plain })

-- A normalized caller ID is not empty and has letters, digits and `+ - _ .` alone, so it is not the wildcard's key.
pub normalize_caller_id-IsKey : (raw id : Text) → normalize_caller_id raw ≡ some id → IsKey id
unfolding normalize_caller_id
normalize_caller_id-IsKey raw id h =
    let trimmed = trim_matches is_quote (trim raw) in
    elim (Bool-cases (is_empty trimmed)) [
      | inl e ↦ cc (rw (e, normalize_caller_id) at h)
      | inr e ↦ elim (Bool-cases (is_withheld (map to_lower trimmed))) [
        | inl f ↦ cc (rw (e, f, normalize_caller_id) at h)
        | inr f ↦ elim (Bool-cases (is_empty (user_part trimmed))) [
          | inl g ↦ cc (rw (e, f, g, normalize_caller_id) at h)
          | inr g ↦
              some_unless_empty-IsKey (retain is_key_character (user_part trimmed)) id
                (retain_plain (user_part trimmed)) (rw (e, f, g, normalize_caller_id) at h)
        ]
      ]
    ]
