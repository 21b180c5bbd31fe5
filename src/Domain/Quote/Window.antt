-- ===== src/Domain/Quote/Window.antt =====
-- src/pa/domain.rs: `Quote` and `AppointmentSlot`, built, consumed and deserialized.
use agent_voice.Common.{
  ℕ, ◌+◌, ◌≤◌, ◌<◌, ◌≡◌, ◌↔◌, refl, ap, true, false, some, leb, ◌==◌, arith, Bool-cases, inl, inr,
  ==_iff,
}
use mathlib.Core.Path.{subst}
use agent_voice.Common.Results.{
  ok, err, guard, ok_or, ok-injective, bind_ok, guard_ok, ok_or_ok, some-injective,
}
use agent_voice.Domain.Kinds.{quote_expired, quote_not_yet_valid}
use agent_voice.Domain.Quote.{
  Quote, QuoteId, valid_for, checked_add, with_id, is_expired, is_valid_at, consume,
  deserialize_quote, AppointmentSlot, new_slot, slot_duration,
}

-- The three results of consuming a quote that was issued, by the time.
pub record HasWindow (id : QuoteId) (issued_at : ℕ) (quote : Quote) : Type 0 where
  pub inside :
      (at : ℕ) → (consume quote at ≡ ok id) ↔ ((issued_at ≤ at) × (at < issued_at + valid_for))
  pub before : (at : ℕ) → at < issued_at → consume quote at ≡ err quote_not_yet_valid
  pub behind : (at : ℕ) → issued_at + valid_for ≤ at → consume quote at ≡ err quote_expired
  pub agrees : (at : ℕ) → (is_valid_at quote at ≡ true) ↔ (consume quote at ≡ ok id)

module _ (id : QuoteId) (issued_at expires_at : ℕ) where
  abbrev quote_of : Quote
  quote_of = record { id = id; issued_at = issued_at; expires_at = expires_at }

  consume_inside : (at : ℕ) → issued_at ≤ at → at < expires_at → consume quote_of at ≡ ok id
  unfolding consume is_expired
  consume_inside at h k = ground arith

  consume_early : (at : ℕ) → at < issued_at → consume quote_of at ≡ err quote_not_yet_valid
  unfolding consume is_expired
  consume_early at h = ground arith

  consume_late :
      (at : ℕ) → issued_at ≤ at → expires_at ≤ at → consume quote_of at ≡ err quote_expired
  unfolding consume is_expired
  consume_late at h k = ground arith

  consume_ok : (at : ℕ) → consume quote_of at ≡ ok id → (issued_at ≤ at) × (at < expires_at)
  unfolding consume is_expired
  consume_ok at h = ground arith

  valid_at : (at : ℕ) → (is_valid_at quote_of at ≡ true) ↔ ((issued_at ≤ at) × (at < expires_at))
  unfolding is_valid_at is_expired
  valid_at at = ground arith

quote-HasWindow :
    (id : QuoteId) (issued_at expires_at : ℕ)
    → expires_at ≡ issued_at + valid_for
    → HasWindow id issued_at (quote_of id issued_at expires_at)
quote-HasWindow id issued_at expires_at e = record {
  inside = λ at. (
    λ h. let (a, b) = consume_ok id issued_at expires_at at h in (a, omega arith),
    λ (a, b). consume_inside id issued_at expires_at at a (omega arith),
  );
  before = consume_early id issued_at expires_at;
  behind = λ at h. consume_late id issued_at expires_at at (omega arith) (omega arith);
  agrees = λ at. (
    λ h.
        let (a, b) = (valid_at id issued_at expires_at at).0 h in
        consume_inside id issued_at expires_at at a b,
    λ h. (valid_at id issued_at expires_at at).1 (consume_ok id issued_at expires_at at h),
  );
}

checked_add_some :
    (latest at duration sum : ℕ) → checked_add latest at duration ≡ some sum → sum ≡ at + duration
unfolding checked_add
checked_add_some latest at duration sum h = ground arith

-- A quote can be consumed from its issue until five minutes later, that instant excluded; earlier
-- and later the two errors tell which it is.
pub with_id-HasWindow :
    (latest : ℕ) (id : QuoteId) (issued_at : ℕ) (quote : Quote)
    → with_id latest id issued_at ≡ some quote
    → HasWindow id issued_at quote
unfolding with_id
with_id-HasWindow latest id issued_at quote run =
    elim (Bool-cases (leb (issued_at + valid_for) latest)) [
      | inl e ↦
          let run' = rw (e, with_id) at run in
          subst (HasWindow id issued_at) (some-injective run')
            (quote-HasWindow id issued_at (issued_at + valid_for) refl)
      | inr e ↦ cc (rw (e, with_id) at run)
    ]

with_id_added :
    (latest : ℕ) (id : QuoteId) (issued_at expires_at : ℕ)
    → checked_add latest issued_at valid_for ≡ some expires_at
    → with_id latest id issued_at ≡ some (quote_of id issued_at expires_at)
unfolding with_id checked_add
with_id_added latest id issued_at expires_at h =
    elim (Bool-cases (leb (issued_at + valid_for) latest)) [
      | inl e ↦
          rw (e, with_id)
            (ap (λ x. some (quote_of id issued_at x)) (some-injective (rw (e, checked_add) at h)))
      | inr e ↦ cc (rw (e, checked_add) at h)
    ]

deserialized :
    (latest : ℕ) (id : QuoteId) (issued_at expires_at : ℕ) (quote : Quote)
    → deserialize_quote latest id issued_at expires_at ≡ ok quote
    → (with_id latest id issued_at ≡ some quote) × (quote.expires_at ≡ expires_at)
unfolding deserialize_quote
deserialized latest id issued_at expires_at quote h =
    let (expected, (sum, h)) = bind_ok (ok_or (checked_add latest issued_at valid_for) _) _ h in
    let (_, (same, h)) = bind_ok (guard (expires_at == expected) _) _ h in
    let e : expires_at ≡ expected = (==_iff expires_at expected).0 (guard_ok _ _ same) in
    let added = ok_or_ok _ _ sum in
    subst (λ q. (with_id latest id issued_at ≡ some q) × (q.expires_at ≡ expires_at))
      (ok-injective h) (rw e (with_id_added latest id issued_at expected added), refl)

issued :
    (latest : ℕ) (id : QuoteId) (issued_at : ℕ) (quote : Quote)
    → with_id latest id issued_at ≡ some quote
    → deserialize_quote latest id issued_at quote.expires_at ≡ ok quote
unfolding deserialize_quote with_id checked_add
issued latest id issued_at quote h = elim (Bool-cases (leb (issued_at + valid_for) latest)) [
  | inl e ↦
      subst (λ q. deserialize_quote latest id issued_at q.expires_at ≡ ok q)
        (some-injective (rw (e, with_id) at h))
        (rw (e, (==_iff (issued_at + valid_for) (issued_at + valid_for)).1 refl) refl)
  | inr e ↦ cc (rw (e, with_id) at h)
]

-- The fields of a quote deserialize to it exactly when it is the quote that issuing gives, with the
-- expiry five minutes later.
deserialize_quote_iff :
    (latest : ℕ) (id : QuoteId) (issued_at expires_at : ℕ) (quote : Quote)
    → (deserialize_quote latest id issued_at expires_at ≡ ok quote)
      ↔ ((with_id latest id issued_at ≡ some quote) × (quote.expires_at ≡ expires_at))
deserialize_quote_iff latest id issued_at expires_at quote = (
  deserialized latest id issued_at expires_at quote,
  λ (h, e).
      subst (λ x. deserialize_quote latest id issued_at x ≡ ok quote) e
        (issued latest id issued_at quote h),
)

abbrev IsSlot : ℕ → ℕ → AppointmentSlot → Type 0
IsSlot starts_at ends_at slot =
    ((slot.starts_at ≡ starts_at) × (slot.ends_at ≡ ends_at))
    × ((0 < slot_duration slot) × (starts_at + slot_duration slot ≡ ends_at))

new_slot-IsSlot :
    (starts_at ends_at : ℕ) (slot : AppointmentSlot)
    → new_slot starts_at ends_at ≡ ok slot
    → IsSlot starts_at ends_at slot
unfolding new_slot slot_duration
new_slot-IsSlot starts_at ends_at slot h = elim (Bool-cases (leb ends_at starts_at)) [
  | inl e ↦ cc (rw (e, new_slot) at h)
  | inr e ↦
      let lt : starts_at < ends_at = ground arith in
      subst (IsSlot starts_at ends_at) (ok-injective (rw (e, new_slot) at h))
        ((refl, refl), (omega arith, omega arith))
]

IsSlot-new_slot :
    (starts_at ends_at : ℕ) (slot : AppointmentSlot)
    → IsSlot starts_at ends_at slot
    → new_slot starts_at ends_at ≡ ok slot
unfolding new_slot slot_duration
IsSlot-new_slot starts_at ends_at slot ((p, q), (d, s)) =
    let open_ended : leb slot.ends_at slot.starts_at ≡ false = ground arith in
    rw (← p, ← q) (rw open_ended refl)

-- A slot is accepted exactly when it ends after its start, and then its duration is positive and
-- leads from its start to its end.
new_slot_iff :
    (starts_at ends_at : ℕ) (slot : AppointmentSlot)
    → (new_slot starts_at ends_at ≡ ok slot) ↔ IsSlot starts_at ends_at slot
new_slot_iff starts_at ends_at slot =
    (new_slot-IsSlot starts_at ends_at slot, IsSlot-new_slot starts_at ends_at slot)
