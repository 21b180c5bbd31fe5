-- ===== src/Lib.antt =====
-- Agent Voice: the core of the personal assistant and of the phone book.
--
-- The program answers phone calls. A call's caller ID goes to the phone book, which decides whether
-- the call may proceed; a realtime voice session then offers appointments and tasks. The personal
-- assistant computes free slots from two calendars, issues quotes for them and turns an accepted
-- quote into a draft. Its HTTP interface accepts requests that carry a keyed signature and a nonce,
-- and its backups are sent to S3 with AWS signatures. Its store keeps messages, the tasks found in
-- emails, the cursors of the providers' streams, the nonces of requests, an audit log and an outbox of
-- notifications, from which workers take them under a lease. Deterministic fakes stand in for the
-- providers; they count their calls and fail on demand.
--
-- File                     Code (from the repository's root)
--   Auth/Hex                 src/pa/auth.rs: lower_hex, decode_hex, hex_digit
--   Auth/Guard               src/pa/auth.rs: InMemoryReplayGuard, its state the list of nonces
--   Auth/Request             src/pa/auth.rs: canonical_request, sign_request, verify_request
--   Availability/Dates       what src/pa/availability.rs uses of time, chrono and chrono_tz
--   Availability/Busy        src/pa/availability.rs: BusyInterval, merge_busy_intervals
--   Availability/Grid        src/pa/availability.rs: ceil_window_grid, ceil_local_grid
--   Availability/Policy      src/pa/availability.rs: WorkingWindow, AvailabilityPolicy::new
--   Availability/Slots       src/pa/availability.rs: AvailabilityPolicy::available_slots, loop by loop
--   Sigv4/Kinds              src/pa/sigv4.rs: constants, requests, credentials, errors
--   Sigv4/Percent, Query     src/pa/sigv4.rs: percent_encode, canonical_uri_and_query
--   Sigv4/Timestamp          src/pa/sigv4.rs: validate_timestamp, validate_scope_date
--   Sigv4/Timestamp/Calendar the Gregorian calendar, apart from days_in_month
--   Sigv4/Headers            src/pa/sigv4.rs: canonical_headers and the other validations
--   Sigv4/Sign               src/pa/sigv4.rs: canonicalize, SigningKey::derive, sign_request
--   Domain/Kinds, Email      src/pa/domain.rs: kinds, durations, non_blank, is_valid_email
--   Domain/Quote, Drafts     src/pa/domain.rs: Quote, AppointmentSlot, the drafts and their keys
--   Domain/Proposal          src/pa/domain.rs: ProposalState, its transitions a step relation
--   Phonebook/CallerId       src/phonebook.rs: normalize_caller_id, normalize_email_candidate
--   Phonebook/Entries        src/phonebook.rs: CallerRecord and what merge_update does to it
--   Phonebook/Store          src/phonebook.rs: PhoneBookStore, its state the map of the callers
--   Fakes/Errors, Keys       src/pa/providers.rs: ProviderError, the validations of backup values
--   Fakes/Operations         src/pa/fakes/control.rs: FakeOperation
--   Fakes/Control            src/pa/fakes/control.rs: FakeControl, its state the array of states
--   Fakes/Backup, Provider   src/pa/fakes/backup.rs: the objects, and the provider around them
--   Store/Errors, Names      src/pa/store.rs: StoreError, the enumerations and their stored names
--   Store/Instants, Texts    src/pa/store.rs: the format_ functions of times, the validations of texts
--   Store/Templates          src/pa/store.rs: NotificationTemplateData
--   Store/Outbox             src/pa/store.rs: rows of notification_outbox, decode_notification_row, loads
--   Store/Outbox/Enqueue     src/pa/store.rs: enqueue_notification, delete_notification_by_id
--   Store/Outbox/Deliver     src/pa/store.rs: claim_, mark_ and reschedule_notification
--   Store/Outbox/Expected    what the outbox operations make of a row, field by field, apart from them
--   Store/Outbox/Machine     what a notification goes through, a step relation, and calls in turn
--   Store/Replay             src/pa/store.rs: consume_replay_nonce, ReplayGuard for PaStore
--   Store/Cursor             src/pa/store.rs: load_ and advance_provider_cursor
--   Store/Messages, Tasks    src/pa/store.rs: rows, readers and load_ operations; Insert: record_,
--                            Update: transition_, Queries: list_
--   Store/Paging, Audit      src/pa/store.rs: pages by id; append_, load_ and list_audit_events
--   Store/Table              rows under selection and guarded update
-- The modules below these hold the proofs, the modules named Examples and Runs the runs. Common
-- holds what they share: Rust strings as lists of bytes or scalar values, `Result` with the `?`
-- operator as do blocks, integers, sorting, trimming and splitting.
--
-- Functions that change `&mut self` or the value under a lock take the state and give it back; a
-- lock is held for the whole operation in the code, so an operation is one step. Integers are
-- natural numbers or ℤ with the width written out where the code saturates, wraps or overflows.
--
-- A table of the store is the list of its rows, kept by id, and an SQL statement a function on it. An
-- operation runs in one transaction: it gives the new tables, or an error and leaves the old ones. An
-- id or a count of attempts in a row is a natural number, an argument of such is in ℤ as an i64; a
-- stored time is the instant that its canonical text names, in nanoseconds from the year 0. The
-- times that SQLite or the clock writes into a row are arguments. A new id is one more than the
-- greatest. That SQLite itself fails, full disks among it, is not modelled.
--
-- The loops of available_slots recurse on fuel: a window has at most 97 rounds, as a day has 96
-- quarter hours, and the days one round for each date up to the horizon and one more. Printing a
-- number has fuel for 20 digits, as a u64 has no more.
--
-- Parameters: SHA-256 and HMAC of the crate ring (Auth/Request: Ring, with what it documents in
-- RingLaws), and the time zone and calendar arithmetic (Availability/Dates). Whether the
-- phone book's file can be written, the latest instant, and whether the crate chrono can give a time
-- in nanoseconds are arguments of the functions.
--
-- Not modelled: texts of errors, Debug, the derives of serde, and I/O. Of the store the proposals, event
-- mappings, drafts, quotes and placements (of the first two the outbox reads the ids, and what deletes
-- them is not a step of it), OAuth credentials, HTTP idempotency and backup attempts, the schema
-- migrations and SQLCipher, and list_pending_notifications. Of the remaining parts of the program, the
-- service of the assistant (src/pa/service.rs) calls the store and the providers; the realtime session,
-- audio and speech modules are events and signal processing; configuration and the HTTP handlers are
-- set-up.
pub mod Common
pub mod Auth
pub mod Availability
pub mod Sigv4
pub mod Domain
pub mod Phonebook
pub mod Fakes
pub mod Store
