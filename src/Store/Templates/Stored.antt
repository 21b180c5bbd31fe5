-- ===== src/Store/Templates/Stored.antt =====
-- src/pa/store.rs: template values written and read again.
use agent_voice.Common.{ℕ, ◌≡◌, refl, ap, false, not, Option, none, some}
use mathlib.Core.Option
use mathlib.Core.Path.{subst}
use agent_voice.Common.Results.{ok, guard, bind_ok, guard_ok, ok-injective}
use agent_voice.Common.Text.{Text, trim, is_empty}
use agent_voice.Common.Text.Trim.{trim_idempotent}
use agent_voice.Domain.Kinds.{AppointmentKind, ProposalState}
use agent_voice.Store.Instants.{OffsetDateTime}
use agent_voice.Store.Templates.{
  TemplateData, new_template_data, deserialize_template, in_utc, is_blank, is_offset, is_reversed,
  is_some, same,
}

is_blank-trim : (text : Option Text) → is_blank (Option.map trim text) ≡ is_blank text
is_blank-trim none = refl
is_blank-trim (some text) = ap is_empty (trim_idempotent text)

trim-trim : (text : Option Text) → Option.map trim (Option.map trim text) ≡ Option.map trim text
trim-trim none = refl
trim-trim (some text) = ap some (trim_idempotent text)

abbrev stored : Option OffsetDateTime → Option ℕ
stored = Option.map (λ at. at.instant)

abbrev read : Option ℕ → Option OffsetDateTime
read = Option.map in_utc

is_some-stored : (at : Option OffsetDateTime) → is_some (read (stored at)) ≡ is_some at
is_some-stored none = refl
is_some-stored (some at) = refl

is_offset-read : (at : Option ℕ) → is_offset (read at) ≡ false
is_offset-read none = refl
is_offset-read (some at) = refl

is_reversed-stored :
    (a b : Option OffsetDateTime)
    → is_reversed (read (stored a)) (read (stored b)) ≡ is_reversed a b
is_reversed-stored none none = refl
is_reversed-stored none (some b) = refl
is_reversed-stored (some a) none = refl
is_reversed-stored (some a) (some b) = refl

stored-read : (at : Option ℕ) → stored (read at) ≡ at
stored-read none = refl
stored-read (some at) = refl

-- What the constructor of template values builds is read back from its stored form as it is.
pub deserialize_template-new_template_data :
    (title : Option Text) (starts_at ends_at : Option OffsetDateTime) (timezone : Option Text)
    (kind : Option AppointmentKind) (state : Option ProposalState) (template : TemplateData)
    → new_template_data title starts_at ends_at timezone kind state ≡ ok template
    → deserialize_template template ≡ ok template
unfolding new_template_data deserialize_template
deserialize_template-new_template_data title starts_at ends_at timezone kind state template run =
    let (_, (titled, run)) = bind_ok (guard (not (is_blank title)) _) _ run in
    let (_, (zoned, run)) = bind_ok (guard (not (is_blank timezone)) _) _ run in
    let (_, (paired, run)) = bind_ok (guard (same (is_some starts_at) (is_some ends_at)) _) _ run in
    let (_, (_, run)) = bind_ok (guard (not (is_offset starts_at)) _) _ run in
    let (_, (_, run)) = bind_ok (guard (not (is_offset ends_at)) _) _ run in
    let (_, (rising, run)) = bind_ok (guard (not (is_reversed starts_at ends_at)) _) _ run in
    subst (λ (t : TemplateData). deserialize_template t ≡ ok t) (ok-injective run)
      (rw
        (
          is_blank-trim title,
          is_blank-trim timezone,
          is_some-stored starts_at,
          is_some-stored ends_at,
          is_offset-read (stored starts_at),
          is_offset-read (stored ends_at),
          is_reversed-stored starts_at ends_at,
          guard_ok _ _ titled,
          guard_ok _ _ zoned,
          guard_ok _ _ paired,
          guard_ok _ _ rising,
          trim-trim title,
          trim-trim timezone,
          stored-read (stored starts_at),
          stored-read (stored ends_at),
        )
        refl)
