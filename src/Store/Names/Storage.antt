-- ===== src/Store/Names/Storage.antt =====
-- src/pa/store.rs: a stored name is read as a value exactly when it is the name of that value.
use agent_voice.Common.{
  ◌≡◌, refl, ap, sym, ◌∙◌, ◌↔◌, inl, inr, Bool-cases, some, List, [], ◌∷◌, All, Bytes, bytes_eq,
  bytes_eq→eq,
}
use agent_voice.Common.Results.{ok, ok_or, ok_or_ok, some-injective}
use agent_voice.Common.Assoc.{lookup}
use agent_voice.Store.Errors.{StoreError}
use agent_voice.Store.Names.{
  MessageProvider, voice, outlook, gmail, provider_name, provider_arms, provider_from_storage,
  MessageTriageState, recorded, unprocessed, actionable, ambiguous, ignored, triaged, triage_name,
  triage_arms, triage_from_storage, StoredTaskState, pending, proposed, scheduled, no_slot,
  task_state_name, task_state_arms, task_state_from_storage, AuditEventType, message_recorded,
  request_submitted, owner_task_submitted, proposal_created, proposal_accepted, proposal_declined,
  proposal_expired, proposal_promoted, notification_enqueued, notification_sent,
  notification_retry_scheduled, provider_cursor_advanced, event_name, event_arms,
  event_from_storage, AuditEntityType, message, appointment_request, owner_task, proposal,
  notification, provider_cursor, entity_name, entity_arms, entity_from_storage, NotificationKind,
  call_summary, requested, accepted, declined, expired, kind_name, kind_arms,
  parse_notification_kind, NotificationStatus, waiting, delivering, sent, status_name, status_arms,
  parse_notification_status,
}

-- A lookup finds only what an arm says of the key.
lookup-All :
    {A : Type 0} (name : A → Bytes) (key : Bytes) (a : A) (arms : List (Bytes × A))
    → All (λ arm. arm.0 ≡ name arm.1) arms
    → lookup key arms ≡ some a
    → key ≡ name a
unfolding lookup
lookup-All name key a [] _ run = cc
lookup-All name key a ((text, b) ∷ arms) (h, hs) run = elim (Bool-cases (bytes_eq text key)) [
  | inl e ↦
      let same : b ≡ a = some-injective (rw e at run) in
      sym (bytes_eq→eq text key e) ∙ (h ∙ ap name same)
  | inr e ↦ lookup-All name key a arms hs (rw e at run)
]

-- Arms that name each value by its name read exactly that name.
arms_iff :
    {A : Type 0} (name : A → Bytes) (arms : List (Bytes × A)) (e : StoreError)
    → All (λ arm. arm.0 ≡ name arm.1) arms
    → ((a : A) → lookup (name a) arms ≡ some a)
    → (value : Bytes) (a : A) → (ok_or (lookup value arms) e ≡ ok a) ↔ (value ≡ name a)
arms_iff name arms e sound complete value a = (
  (λ run. lookup-All name value a arms sound (ok_or_ok (lookup value arms) e run)),
  (λ h. rw (h, complete a) refl),
)

provider_complete : (a : MessageProvider) → lookup (provider_name a) provider_arms ≡ some a
unfolding lookup provider_name bytes_eq
provider_complete voice = refl
provider_complete outlook = refl
provider_complete gmail = refl

triage_complete : (a : MessageTriageState) → lookup (triage_name a) triage_arms ≡ some a
unfolding lookup triage_name bytes_eq
triage_complete recorded = refl
triage_complete unprocessed = refl
triage_complete actionable = refl
triage_complete ambiguous = refl
triage_complete ignored = refl
triage_complete triaged = refl

task_state_complete : (a : StoredTaskState) → lookup (task_state_name a) task_state_arms ≡ some a
unfolding lookup task_state_name bytes_eq
task_state_complete pending = refl
task_state_complete proposed = refl
task_state_complete scheduled = refl
task_state_complete no_slot = refl

event_complete : (a : AuditEventType) → lookup (event_name a) event_arms ≡ some a
unfolding lookup event_name bytes_eq
event_complete message_recorded = refl
event_complete request_submitted = refl
event_complete owner_task_submitted = refl
event_complete proposal_created = refl
event_complete proposal_accepted = refl
event_complete proposal_declined = refl
event_complete proposal_expired = refl
event_complete proposal_promoted = refl
event_complete notification_enqueued = refl
event_complete notification_sent = refl
event_complete notification_retry_scheduled = refl
event_complete provider_cursor_advanced = refl

entity_complete : (a : AuditEntityType) → lookup (entity_name a) entity_arms ≡ some a
unfolding lookup entity_name bytes_eq
entity_complete message = refl
entity_complete appointment_request = refl
entity_complete owner_task = refl
entity_complete proposal = refl
entity_complete notification = refl
entity_complete provider_cursor = refl

kind_complete : (a : NotificationKind) → lookup (kind_name a) kind_arms ≡ some a
unfolding lookup kind_name bytes_eq
kind_complete call_summary = refl
kind_complete requested = refl
kind_complete accepted = refl
kind_complete declined = refl
kind_complete expired = refl

status_complete : (a : NotificationStatus) → lookup (status_name a) status_arms ≡ some a
unfolding lookup status_name bytes_eq
status_complete waiting = refl
status_complete delivering = refl
status_complete sent = refl

provider_sound : All (λ arm. arm.0 ≡ provider_name arm.1) provider_arms
unfolding provider_name
provider_sound = (refl, (refl, (refl, tt)))

triage_sound : All (λ arm. arm.0 ≡ triage_name arm.1) triage_arms
unfolding triage_name
triage_sound = (refl, (refl, (refl, (refl, (refl, (refl, tt))))))

task_state_sound : All (λ arm. arm.0 ≡ task_state_name arm.1) task_state_arms
unfolding task_state_name
task_state_sound = (refl, (refl, (refl, (refl, tt))))

event_sound : All (λ arm. arm.0 ≡ event_name arm.1) event_arms
unfolding event_name
event_sound = (
  refl,
  (refl, (refl, (refl, (refl, (refl, (refl, (refl, (refl, (refl, (refl, (refl, tt))))))))))),
)

entity_sound : All (λ arm. arm.0 ≡ entity_name arm.1) entity_arms
unfolding entity_name
entity_sound = (refl, (refl, (refl, (refl, (refl, (refl, tt))))))

kind_sound : All (λ arm. arm.0 ≡ kind_name arm.1) kind_arms
unfolding kind_name
kind_sound = (refl, (refl, (refl, (refl, (refl, tt)))))

status_sound : All (λ arm. arm.0 ≡ status_name arm.1) status_arms
unfolding status_name
status_sound = (refl, (refl, (refl, tt)))

-- Each of the seven closed sets of stored names is read back exactly: a text is read as a value
-- when it is the name that the value is written by, and only then.
pub stored_names_iff :
    (value : Bytes) (provider : MessageProvider) (triage : MessageTriageState)
    (task : StoredTaskState) (event : AuditEventType) (entity : AuditEntityType)
    (kind : NotificationKind) (status : NotificationStatus)
    → ((provider_from_storage value ≡ ok provider) ↔ (value ≡ provider_name provider))
      × ((triage_from_storage value ≡ ok triage) ↔ (value ≡ triage_name triage))
      × ((task_state_from_storage value ≡ ok task) ↔ (value ≡ task_state_name task))
      × ((event_from_storage value ≡ ok event) ↔ (value ≡ event_name event))
      × ((entity_from_storage value ≡ ok entity) ↔ (value ≡ entity_name entity))
      × ((parse_notification_kind value ≡ ok kind) ↔ (value ≡ kind_name kind))
      × ((parse_notification_status value ≡ ok status) ↔ (value ≡ status_name status))
unfolding provider_from_storage triage_from_storage task_state_from_storage event_from_storage
    entity_from_storage parse_notification_kind parse_notification_status
stored_names_iff value provider triage task event entity kind status = (
  arms_iff _ _ _ provider_sound provider_complete value provider,
  arms_iff _ _ _ triage_sound triage_complete value triage,
  arms_iff _ _ _ task_state_sound task_state_complete value task,
  arms_iff _ _ _ event_sound event_complete value event,
  arms_iff _ _ _ entity_sound entity_complete value entity,
  arms_iff _ _ _ kind_sound kind_complete value kind,
  arms_iff _ _ _ status_sound status_complete value status,
)
