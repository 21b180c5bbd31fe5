-- ===== src/Store/Names.antt =====
-- src/pa/store.rs: the closed sets of stored names, with the name of each value and the value of
-- each name. A `match` on text literals is a lookup in the list of its arms.
pub mod Storage
use agent_voice.Common.{ℕ, List, [], ◌∷◌, Bytes, Bool, true, false, codes}
use agent_voice.Common.Assoc.{lookup}
use agent_voice.Common.Results.{Result, ok_or}
use agent_voice.Store.Errors.{StoreError, StoreResult, stored_record_invalid}

pub data MessageProvider : Type 0 where
  voice : MessageProvider
  outlook : MessageProvider
  gmail : MessageProvider

unfoldable pub provider_name : MessageProvider → Bytes
provider_name voice = codes "voice"
provider_name outlook = codes "outlook"
provider_name gmail = codes "gmail"

abbrev provider_arms : List (Bytes × MessageProvider)
provider_arms = (codes "voice", voice) ∷ (codes "outlook", outlook) ∷ (codes "gmail", gmail) ∷ []

unfoldable pub provider_from_storage : Bytes → StoreResult MessageProvider
provider_from_storage value =
    ok_or (lookup value provider_arms) (stored_record_invalid (codes "message provider"))

pub data MessageTriageState : Type 0 where
  recorded : MessageTriageState
  unprocessed : MessageTriageState
  actionable : MessageTriageState
  ambiguous : MessageTriageState
  ignored : MessageTriageState
  triaged : MessageTriageState

unfoldable pub triage_name : MessageTriageState → Bytes
triage_name recorded = codes "recorded"
triage_name unprocessed = codes "unprocessed"
triage_name actionable = codes "actionable"
triage_name ambiguous = codes "ambiguous"
triage_name ignored = codes "ignored"
triage_name triaged = codes "scheduled"

abbrev triage_arms : List (Bytes × MessageTriageState)
triage_arms =
    (codes "recorded", recorded)
    ∷ (codes "unprocessed", unprocessed)
    ∷ (codes "actionable", actionable)
    ∷ (codes "ambiguous", ambiguous)
    ∷ (codes "ignored", ignored)
    ∷ (codes "scheduled", triaged)
    ∷ []

unfoldable pub triage_from_storage : Bytes → StoreResult MessageTriageState
triage_from_storage value =
    ok_or (lookup value triage_arms) (stored_record_invalid (codes "message triage state"))

pub data StoredTaskState : Type 0 where
  pending : StoredTaskState
  proposed : StoredTaskState
  scheduled : StoredTaskState
  no_slot : StoredTaskState

unfoldable pub task_state_name : StoredTaskState → Bytes
task_state_name pending = codes "pending"
task_state_name proposed = codes "proposed"
task_state_name scheduled = codes "scheduled"
task_state_name no_slot = codes "no_slot"

abbrev task_state_arms : List (Bytes × StoredTaskState)
task_state_arms =
    (codes "pending", pending)
    ∷ (codes "proposed", proposed)
    ∷ (codes "scheduled", scheduled)
    ∷ (codes "no_slot", no_slot)
    ∷ []

unfoldable pub task_state_from_storage : Bytes → StoreResult StoredTaskState
task_state_from_storage value =
    ok_or (lookup value task_state_arms) (stored_record_invalid (codes "task state"))

pub data AuditEventType : Type 0 where
  message_recorded : AuditEventType
  request_submitted : AuditEventType
  owner_task_submitted : AuditEventType
  proposal_created : AuditEventType
  proposal_accepted : AuditEventType
  proposal_declined : AuditEventType
  proposal_expired : AuditEventType
  proposal_promoted : AuditEventType
  notification_enqueued : AuditEventType
  notification_sent : AuditEventType
  notification_retry_scheduled : AuditEventType
  provider_cursor_advanced : AuditEventType

unfoldable pub event_name : AuditEventType → Bytes
event_name message_recorded = codes "message_recorded"
event_name request_submitted = codes "request_submitted"
event_name owner_task_submitted = codes "owner_task_submitted"
event_name proposal_created = codes "proposal_created"
event_name proposal_accepted = codes "proposal_accepted"
event_name proposal_declined = codes "proposal_declined"
event_name proposal_expired = codes "proposal_expired"
event_name proposal_promoted = codes "proposal_promoted"
event_name notification_enqueued = codes "notification_enqueued"
event_name notification_sent = codes "notification_sent"
event_name notification_retry_scheduled = codes "notification_retry_scheduled"
event_name provider_cursor_advanced = codes "provider_cursor_advanced"

abbrev event_arms : List (Bytes × AuditEventType)
event_arms =
    (codes "message_recorded", message_recorded)
    ∷ (codes "request_submitted", request_submitted)
    ∷ (codes "owner_task_submitted", owner_task_submitted)
    ∷ (codes "proposal_created", proposal_created)
    ∷ (codes "proposal_accepted", proposal_accepted)
    ∷ (codes "proposal_declined", proposal_declined)
    ∷ (codes "proposal_expired", proposal_expired)
    ∷ (codes "proposal_promoted", proposal_promoted)
    ∷ (codes "notification_enqueued", notification_enqueued)
    ∷ (codes "notification_sent", notification_sent)
    ∷ (codes "notification_retry_scheduled", notification_retry_scheduled)
    ∷ (codes "provider_cursor_advanced", provider_cursor_advanced)
    ∷ []

unfoldable pub event_from_storage : Bytes → StoreResult AuditEventType
event_from_storage value =
    ok_or (lookup value event_arms) (stored_record_invalid (codes "audit event"))

pub data AuditEntityType : Type 0 where
  message : AuditEntityType
  appointment_request : AuditEntityType
  owner_task : AuditEntityType
  proposal : AuditEntityType
  notification : AuditEntityType
  provider_cursor : AuditEntityType

unfoldable pub entity_name : AuditEntityType → Bytes
entity_name message = codes "message"
entity_name appointment_request = codes "appointment_request"
entity_name owner_task = codes "owner_task"
entity_name proposal = codes "proposal"
entity_name notification = codes "notification"
entity_name provider_cursor = codes "provider_cursor"

abbrev entity_arms : List (Bytes × AuditEntityType)
entity_arms =
    (codes "message", message)
    ∷ (codes "appointment_request", appointment_request)
    ∷ (codes "owner_task", owner_task)
    ∷ (codes "proposal", proposal)
    ∷ (codes "notification", notification)
    ∷ (codes "provider_cursor", provider_cursor)
    ∷ []

unfoldable pub entity_from_storage : Bytes → StoreResult AuditEntityType
entity_from_storage value =
    ok_or (lookup value entity_arms) (stored_record_invalid (codes "audit entity"))

pub data NotificationKind : Type 0 where
  call_summary : NotificationKind
  requested : NotificationKind
  accepted : NotificationKind
  declined : NotificationKind
  expired : NotificationKind

unfoldable pub kind_name : NotificationKind → Bytes
kind_name call_summary = codes "call_summary"
kind_name requested = codes "proposal_requested"
kind_name accepted = codes "proposal_accepted"
kind_name declined = codes "proposal_declined"
kind_name expired = codes "proposal_expired"

abbrev kind_arms : List (Bytes × NotificationKind)
kind_arms =
    (codes "call_summary", call_summary)
    ∷ (codes "proposal_requested", requested)
    ∷ (codes "proposal_accepted", accepted)
    ∷ (codes "proposal_declined", declined)
    ∷ (codes "proposal_expired", expired)
    ∷ []

unfoldable pub parse_notification_kind : Bytes → StoreResult NotificationKind
parse_notification_kind value =
    ok_or (lookup value kind_arms) (stored_record_invalid (codes "notification"))

unfoldable pub requires_proposal : NotificationKind → Bool
requires_proposal call_summary = false
requires_proposal requested = true
requires_proposal accepted = true
requires_proposal declined = true
requires_proposal expired = true

pub data NotificationStatus : Type 0 where
  waiting : NotificationStatus
  delivering : NotificationStatus
  sent : NotificationStatus

unfoldable pub status_name : NotificationStatus → Bytes
status_name waiting = codes "pending"
status_name delivering = codes "delivering"
status_name sent = codes "sent"

abbrev status_arms : List (Bytes × NotificationStatus)
status_arms =
    (codes "pending", waiting) ∷ (codes "delivering", delivering) ∷ (codes "sent", sent) ∷ []

unfoldable pub parse_notification_status : Bytes → StoreResult NotificationStatus
parse_notification_status value =
    ok_or (lookup value status_arms) (stored_record_invalid (codes "notification"))
