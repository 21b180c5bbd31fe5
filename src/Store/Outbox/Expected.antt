-- ===== src/Store/Outbox/Expected.antt =====
-- What the documentation of the outbox operations in src/pa/store.rs says of a row before and after
-- them, field by field.
use agent_voice.Common.{
  ℕ, ◌+◌, ◌≤◌, ◌≡◌, refl, true, ◌⊎◌, inl, inr, leb→le, le→leb, Option, none, some,
}
use agent_voice.Common.Text.{Text}
use agent_voice.Store.Names.{NotificationStatus, waiting, delivering, sent}
use agent_voice.Store.Outbox.{StoredNotification}
use agent_voice.Store.Outbox.Deliver.{is_eligible, can_claim}

-- A notification waits and is available, or its lease has ended.
abbrev pub IsDueState : ℕ → NotificationStatus → ℕ → Option ℕ → Type 0
IsDueState now status available_at lease_until =
    ((status ≡ waiting) × (available_at ≤ now))
    ⊎ ((status ≡ delivering) × ((until : ℕ) × ((lease_until ≡ some until) × (until ≤ now))))

abbrev pub IsDue : ℕ → StoredNotification → Type 0
IsDue now row = IsDueState now row.status row.available_at row.lease_until

-- A worker has the row until the lease ends, for one attempt more.
abbrev pub leased_row : ℕ → ℕ → StoredNotification → StoredNotification
leased_row until clock row = record row {
  status = delivering;
  attempts = row.attempts + 1;
  lease_until = some until;
  sent_at = none;
  last_error_code = none;
  updated_at = clock;
}

-- The row was sent at a time; nobody has it.
abbrev pub sent_row : ℕ → ℕ → StoredNotification → StoredNotification
sent_row sent_at clock row = record row {
  status = sent;
  lease_until = none;
  sent_at = some sent_at;
  last_error_code = none;
  updated_at = clock;
}

-- The row waits for a time, with the code of the failure and the attempts that were made.
abbrev pub retried_row : ℕ → Text → ℕ → StoredNotification → StoredNotification
retried_row available_at code clock row = record row {
  status = waiting;
  available_at = available_at;
  lease_until = none;
  sent_at = none;
  last_error_code = some code;
  updated_at = clock;
}

due-of_eligible :
    (now : ℕ) (status : NotificationStatus) (available_at : ℕ) (lease_until : Option ℕ)
    → is_eligible now status available_at lease_until ≡ true
    → IsDueState now status available_at lease_until
unfolding is_eligible
due-of_eligible now waiting available_at lease_until h = inl (refl, leb→le _ _ h)
due-of_eligible now delivering available_at none h = cc
due-of_eligible now delivering available_at (some until) h =
    inr (refl, (until, (refl, leb→le _ _ h)))
due-of_eligible now sent available_at lease_until h = cc

pub can_claim-IsDue :
    (now : ℕ) (row : StoredNotification) → can_claim now row ≡ true → IsDue now row
can_claim-IsDue now row h = due-of_eligible now row.status row.available_at row.lease_until h

pub IsDue-can_claim :
    (now : ℕ) (row : StoredNotification) → IsDue now row → can_claim now row ≡ true
unfolding is_eligible
IsDue-can_claim now row (inl (status, early)) = rw status (le→leb _ _ early)
IsDue-can_claim now row (inr (status, (until, (lease, ended)))) =
    rw (status, lease) (le→leb _ _ ended)
