-- ===== src/Store/Samples.antt =====
-- A small outbox for the runs of the notification operations of pa/store.rs.
use agent_voice.Common.{ℕ, ◌≡◌, refl, none, some, [], ◌∷◌, All, bytes_eq, codes, arith}
use agent_voice.Common.Int.{pos}
use agent_voice.Common.Results.{ok}
use agent_voice.Common.Text.{trim}
use agent_voice.Domain.Email.{confirm, is_valid_email}
use agent_voice.Common.Split.{split}
use agent_voice.Domain.Kinds.{non_blank}
use agent_voice.Store.Templates.{TemplateData, deserialize_template, new_template_data}
use agent_voice.Store.Instants.{OffsetDateTime}
use agent_voice.Store.Names.{waiting, delivering, sent, call_summary, requires_proposal}
use agent_voice.Store.Outbox.{
  StoredNotification, Database, read_row, decode_notification_row,
  validate_stored_notification_references, state_matches, references_kind,
}
use agent_voice.Store.Outbox.Valid.{IsValid}

abbrev pub template : TemplateData
template = record {
  title = some (codes "Summary");
  starts_at = none;
  ends_at = none;
  timezone = none;
  appointment_kind = none;
  proposal_state = none;
}

pub template-built : deserialize_template template ≡ ok template
unfolding deserialize_template new_template_data trim
template-built = refl

abbrev pub waiting_row : StoredNotification
waiting_row = record {
  id = 1;
  idempotency_key = codes "call-1";
  proposal_id = none;
  event_mapping_id = none;
  kind = call_summary;
  recipient = codes "owner@example.com";
  template_data = template;
  status = waiting;
  available_at = 100;
  lease_until = none;
  sent_at = none;
  last_error_code = none;
  attempts = 0;
  created_at = 90;
  updated_at = 90;
}

abbrev pub taken_row : StoredNotification
taken_row = record waiting_row {
  id = 2;
  idempotency_key = codes "call-2";
  status = delivering;
  available_at = 95;
  lease_until = some 160;
  attempts = 3;
}

abbrev sent_row : StoredNotification
sent_row = record waiting_row {
  id = 5;
  idempotency_key = codes "call-5";
  status = sent;
  sent_at = some 99;
  attempts = 2;
}

abbrev pub outbox : Database
outbox = record {
  rows = waiting_row ∷ taken_row ∷ sent_row ∷ [];
  proposals = [];
  event_mappings = [];
}

abbrev pub empty_outbox : Database
empty_outbox = record { rows = []; proposals = []; event_mappings = [] }

abbrev pub at : ℕ → OffsetDateTime
at instant = record { instant = instant; offset = pos 0 }

readable : All (λ row. read_row outbox row ≡ ok row) outbox.rows
unfolding read_row decode_notification_row validate_stored_notification_references state_matches
    references_kind requires_proposal non_blank confirm deserialize_template new_template_data trim
    is_valid_email bytes_eq split
readable = (refl, (refl, (refl, tt)))

pub outbox-IsValid : IsValid outbox
outbox-IsValid = record {
  ordered = (omega arith, (omega arith, (omega arith, tt)));
  readable = readable;
}

pub empty_outbox-IsValid : IsValid empty_outbox
empty_outbox-IsValid = record { ordered = tt; readable = tt }
