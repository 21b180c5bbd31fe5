-- ===== src/Phonebook/Entries/Notes.antt =====
-- src/phonebook.rs: `merge_notes`.
use agent_voice.Common.{
  ◌≡◌, refl, Bool, true, false, List, [], ◌∷◌, ◌++◌, map, any, bytes_eq_refl, to_lower, All,
  All-append, Bool-cases, inl, inr, arith,
}
use agent_voice.Common.Text.{Text, trim, is_empty}
use agent_voice.Phonebook.Entries.{eq_ignore_case, merge_note, merge_notes}

abbrev has_note : List Text → Text → Bool
has_note notes note = any (λ existing. eq_ignore_case existing note) notes

-- No note is equal to a later one, in whatever case.
abbrev Distinct : List Text → Type 0
Distinct [] = Unit
Distinct (note ∷ notes) = All (λ later. eq_ignore_case note later ≡ false) notes × Distinct notes

Distinct-append :
    (notes : List Text) (note : Text)
    → Distinct notes
    → has_note notes note ≡ false
    → Distinct (notes ++ note ∷ [])
Distinct-append [] note _ h = (tt, tt)
Distinct-append (first ∷ notes) note (differs, d) h =
    let one : eq_ignore_case first note ≡ false = ground arith in
    let rest : has_note notes note ≡ false = ground arith in
    (
      All-append (λ later. eq_ignore_case first later ≡ false) notes (note ∷ []) differs (one, tt),
      Distinct-append notes note d rest,
    )

merge_note-Distinct :
    (target : List Text) (note : Text) → Distinct target → Distinct (merge_note target note)
unfolding merge_note
merge_note-Distinct target note d = elim (Bool-cases (is_empty (trim note))) [
  | inl e ↦ rw e d
  | inr e ↦ elim (Bool-cases (has_note target (trim note))) [
    | inl f ↦ rw (e, f) d
    | inr f ↦ rw (e, f) (Distinct-append target (trim note) d f)
  ]
]

has_note-append :
    (notes more : List Text) (note : Text)
    → has_note notes note ≡ true
    → has_note (notes ++ more) note ≡ true
has_note-append [] more note h = cc
has_note-append (first ∷ notes) more note h = ground (arith, has_note-append notes more note)

has_note-last : (notes : List Text) (note : Text) → has_note (notes ++ note ∷ []) note ≡ true
has_note-last [] note = rw (bytes_eq_refl (map to_lower note)) refl
has_note-last (first ∷ notes) note = ground (arith, has_note-last notes note)

merge_note-keeps :
    (target : List Text) (note other : Text)
    → has_note target other ≡ true
    → has_note (merge_note target note) other ≡ true
unfolding merge_note
merge_note-keeps target note other h = elim (Bool-cases (is_empty (trim note))) [
  | inl e ↦ rw e h
  | inr e ↦ elim (Bool-cases (has_note target (trim note))) [
    | inl f ↦ rw (e, f) h
    | inr f ↦ rw (e, f) (has_note-append target (trim note ∷ []) other h)
  ]
]

merge_note-adds :
    (target : List Text) (note : Text)
    → is_empty (trim note) ≡ false
    → has_note (merge_note target note) (trim note) ≡ true
unfolding merge_note
merge_note-adds target note e = elim (Bool-cases (has_note target (trim note))) [
  | inl f ↦ rw (e, f) f
  | inr f ↦ rw (e, f) (has_note-last target (trim note))
]

merge_notes-keeps :
    (target notes : List Text) (other : Text)
    → has_note target other ≡ true
    → has_note (merge_notes target notes) other ≡ true
unfolding merge_notes
merge_notes-keeps target [] other h = h
merge_notes-keeps target (note ∷ notes) other h =
    merge_notes-keeps (merge_note target note) notes other (merge_note-keeps target note other h)

merge_notes-adds :
    (target notes : List Text)
    → All
        (λ note.
          is_empty (trim note) ≡ false → has_note (merge_notes target notes) (trim note) ≡ true)
        notes
unfolding merge_notes
merge_notes-adds target [] = tt
merge_notes-adds target (note ∷ notes) = (
  λ e. merge_notes-keeps (merge_note target note) notes (trim note) (merge_note-adds target note e),
  merge_notes-adds (merge_note target note) notes,
)

merge_notes-Distinct :
    (target notes : List Text) → Distinct target → Distinct (merge_notes target notes)
unfolding merge_notes
merge_notes-Distinct target [] d = d
merge_notes-Distinct target (note ∷ notes) d =
    merge_notes-Distinct (merge_note target note) notes (merge_note-Distinct target note d)

pub record IsMerge (target notes result : List Text) : Type 0 where
  pub distinct : Distinct result
  pub kept : (note : Text) → has_note target note ≡ true → has_note result note ≡ true
  pub added : All (λ note. is_empty (trim note) ≡ false → has_note result (trim note) ≡ true) notes

-- Notes that are distinct in whatever case stay so; every note that was there is still there, and
-- every new one that is not blank, trimmed and in whatever case.
merge_notes-IsMerge :
    (target notes : List Text) → Distinct target → IsMerge target notes (merge_notes target notes)
merge_notes-IsMerge target notes d = record {
  distinct = merge_notes-Distinct target notes d;
  kept = merge_notes-keeps target notes;
  added = merge_notes-adds target notes;
}
