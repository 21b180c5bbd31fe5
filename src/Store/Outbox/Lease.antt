-- ===== src/Store/Outbox/Lease.antt =====
-- src/pa/store.rs: what `claim_notifications` promises to the worker that calls it.
use agent_voice.Common.{
  ℕ, ◌+◌, ◌^◌, ◌≤◌, ◌<◌, ◌≡◌, ◌≢◌, refl, sym, ap, ◌∙◌, true, not, ◌&&◌, ltb, leb, some, List, [],
  ◌∷◌, ◌++◌, map, All, All-append, All-mapped, le→leb, All-map, length, arith,
}
use mathlib.Core.Path.{subst}
use agent_voice.Common.Int.{ℤ, pos}
use agent_voice.Common.Results.{
  ok, err, guard, ok_or, bind_ok, ok_or_ok, ok-injective, some-injective,
}
use agent_voice.Domain.Quote.{checked_add}
use agent_voice.Store.Errors.{StoreResult}
use agent_voice.Store.Instants.{OffsetDateTime, normalize_notification_time}
use agent_voice.Store.Names.{delivering}
use agent_voice.Store.Outbox.{StoredNotification, Database}
use agent_voice.Store.Outbox.Deliver.{
  can_claim, is_eligible, claimed, claim_each, candidates, claim_notifications,
  is_positive_duration, duration_of,
}
use agent_voice.Store.Outbox.Rows.{row_at}
use agent_voice.Store.Outbox.Leased.{
  claimed_rows, claimed_rows-bounded, claimed_rows-sorted, claimed_rows-leased, claimed_rows-taken,
  claimed_rows-apart,
}
use agent_voice.Store.Outbox.Expected.{IsDue, leased_row}
use agent_voice.Common.Sort.{SortedFrom}
use agent_voice.Store.Outbox.Valid.{IsValid}
use agent_voice.Store.Outbox.Claim.{IsClaimed, claim_each-IsClaimed}
use agent_voice.Store.Outbox.Candidates.{IsCandidate, candidates-IsCandidate, candidates-Distinct}

checked_add-eq :
    (latest at duration sum : ℕ) → checked_add latest at duration ≡ some sum → sum ≡ at + duration
unfolding checked_add
checked_add-eq latest at duration sum h = ground arith

module _ (latest : ℕ) (db : Database) (clock : ℕ) (now : OffsetDateTime) (limit : ℕ)
    (duration : ℤ) where
  -- What a claim that succeeds comes from.
  pub claim-parts :
      (result : List StoredNotification × Database)
      → claim_notifications latest db clock now limit duration ≡ ok result
      → claim_each now.instant
          (now.instant + duration_of duration)
          clock
          db
          (map (λ row. row.id) (candidates now.instant limit db.rows))
        ≡ ok result
  unfolding claim_notifications normalize_notification_time
  claim-parts result run =
      let (_, (_, run)) = bind_ok (guard (not (leb limit 0) && ltb limit (2 ^ 63)) _) _ run in
      let (_, (_, run)) = bind_ok (guard (is_positive_duration duration) _) _ run in
      let (until, (added, run)) =
        bind_ok (ok_or (checked_add latest now.instant (duration_of duration)) _) _ run in
      let sum =
        checked_add-eq latest now.instant (duration_of duration) until (ok_or_ok _ _ added) in
      subst
        (λ (u : ℕ).
          claim_each now.instant u clock db
            (map (λ row. row.id) (candidates now.instant limit db.rows))
          ≡ ok result)
        sum run

  -- A claim gives rows that are due, the earliest first, each under its lease in the new table with
  -- one attempt more, and changes no other row.
  pub record IsLeased (until : ℕ) (out : List StoredNotification) (final : Database) : Type 0 where
    pub runs : claim_notifications latest db clock now limit duration ≡ ok (out, final)
    pub valid : IsValid final
    pub bounded : length out ≤ limit
    pub sorted : SortedFrom (λ r. r.available_at) 0 out
    pub leased :
        All
          (λ r.
            (row : StoredNotification) × ((row_at r.id db.rows ≡ some row)
              × (IsDue now.instant row × (r ≡ leased_row until clock row))))
          out
    pub taken : All (λ r. row_at r.id final.rows ≡ some r) out
    pub others : (id : ℕ) → All (λ r. r.id ≢ id) out → row_at id final.rows ≡ row_at id db.rows

  pub claim-IsClaimed :
      (until : ℕ)
      → IsValid db
      → IsClaimed now.instant until clock db (candidates now.instant limit db.rows)
  claim-IsClaimed until v =
      claim_each-IsClaimed now.instant until clock db (candidates now.instant limit db.rows) v
        (candidates-Distinct now.instant db limit v) (candidates-IsCandidate now.instant db limit v)

  -- A claim that succeeds on a valid outbox is one that leases the candidates.
  pub claim-run :
      (out : List StoredNotification) (final : Database)
      → IsValid db
      → claim_notifications latest db clock now limit duration ≡ ok (out, final)
      → (c : IsClaimed now.instant
          (now.instant + duration_of duration)
          clock
          db
          (candidates now.instant limit db.rows))
        × (out
            ≡ map
                (claimed (now.instant + duration_of duration) clock)
                (candidates now.instant limit db.rows))
        × (final ≡ c.final)
  claim-run out final v run =
      let c = claim-IsClaimed (now.instant + duration_of duration) v in
      let same = ok-injective (sym (claim-parts (out, final) run) ∙ c.runs) in
      (c, ap (λ p. p.0) same, ap (λ p. p.1) same)

-- On a valid outbox a claim with a limit from 1 to 2^63 - 1 and a positive lease that ends by the
-- latest instant succeeds: it returns at most as many notifications as the limit, the earliest
-- first, each of which was due and is in the table with one attempt more, delivering until the end of
-- the lease; every other row is as it was, and the outbox stays valid.
pub claim_notifications-IsLeased :
    (latest : ℕ) (db : Database) (clock : ℕ) (now : OffsetDateTime) (limit duration : ℕ)
    → IsValid db
    → 0 < limit
    → limit < 2 ^ 63
    → 0 < duration
    → now.instant + duration ≤ latest
    → (out : List StoredNotification) × ((final : Database) × IsLeased latest db clock now limit
          (pos duration)
          (now.instant + duration)
          out
          final)
unfolding claim_notifications normalize_notification_time checked_add
claim_notifications-IsLeased latest db clock now limit duration v some_limit small some_lease fits =
    let until = now.instant + duration in
    let c = claim-IsClaimed latest db clock now limit (pos duration) until v in
    let limit_ok : (not (leb limit 0) && ltb limit (2 ^ 63)) ≡ true = ground arith in
    let lease_ok : not (leb duration 0) ≡ true = ground arith in
    let end_ok : leb until latest ≡ true = le→leb _ _ fits in
    (
      claimed_rows now.instant until clock limit db,
      (
        c.final,
        record {
          runs = rw (limit_ok, lease_ok, end_ok) c.runs;
          valid = c.valid;
          bounded = claimed_rows-bounded now.instant until clock limit db;
          sorted = claimed_rows-sorted now.instant until clock limit db;
          leased = claimed_rows-leased now.instant until clock limit db v;
          taken = claimed_rows-taken now.instant until clock limit db c.final c.taken;
          others = λ id apart.
              c.others id (claimed_rows-apart now.instant until clock limit db id apart);
        },
      ),
    )

-- The calls of other workers: clock, time, limit and lease.
pub record Call : Type 0 where
  pub clock : ℕ
  pub now : OffsetDateTime
  pub limit : ℕ
  pub duration : ℤ

abbrev outcome : Database → StoreResult (List StoredNotification × Database) → Database
outcome db (ok (out, db')) = db'
outcome db (err e) = db

abbrev returned : StoreResult (List StoredNotification × Database) → List StoredNotification
returned (ok (out, db')) = out
returned (err e) = []

unfoldable pub claim_calls : ℕ → Database → List Call → List StoredNotification × Database
claim_calls latest db [] = ([], db)
claim_calls latest db (call ∷ calls) =
    let result = claim_notifications latest db call.clock call.now call.limit call.duration in
    let rest = claim_calls latest (outcome db result) calls in (returned result ++ rest.0, rest.1)

abbrev Holds : ℕ → StoredNotification → Type 0
Holds until row = (row.status ≡ delivering) × (row.lease_until ≡ some until)

-- A row whose lease has not ended is no candidate.
leased-not_candidate :
    (until now : ℕ) (row : StoredNotification)
    → Holds until row
    → now < until
    → can_claim now row ≡ true
    → ⊥
unfolding is_eligible
leased-not_candidate until now row (status, lease) early g =
    let h : leb until now ≡ true = rw (status, lease) at g in absurd (ground arith)

claimed_apart :
    (until clock id : ℕ) (rows : List StoredNotification)
    → All (λ r. r.id ≢ id) rows
    → All (λ r. r.id ≢ id) (map (claimed until clock) rows)
unfolding claimed
claimed_apart until clock id rows h = All-mapped (λ r. r.id ≢ id) (claimed until clock) rows h

-- No candidate has the id of a row whose lease has not ended.
candidates-apart :
    (db : Database) (now until id : ℕ) (row : StoredNotification)
    → row_at id db.rows ≡ some row
    → Holds until row
    → now < until
    → (r : StoredNotification) → IsCandidate now db r
    → r.id ≢ id
candidates-apart db now until id row at holds early r (found, g) same =
    let equal : row ≡ r =
      some-injective (sym at ∙ subst (λ (i : ℕ). row_at i db.rows ≡ some r) same found) in
    leased-not_candidate until now r (subst (Holds until) equal holds) early g

-- One call before the end of the lease does not return the row, and leaves it as it is.
leased_call :
    (latest : ℕ) (db : Database) (call : Call) (until id : ℕ) (row : StoredNotification)
    → IsValid db
    → row_at id db.rows ≡ some row
    → Holds until row
    → call.now.instant < until
    → (result : StoreResult (List StoredNotification × Database))
    → claim_notifications latest db call.clock call.now call.limit call.duration ≡ result
    → (row_at id (outcome db result).rows ≡ some row)
      × (All (λ r. r.id ≢ id) (returned result) × IsValid (outcome db result))
leased_call latest db call until id row v at holds early (err e) run = (at, (tt, v))
leased_call latest db call until id row v at holds early (ok (out, final)) run =
    let (c, outs, same) =
      claim-run latest db call.clock call.now call.limit call.duration out final v run in
    let apart : All (λ r. r.id ≢ id) (candidates call.now.instant call.limit db.rows) =
      All-map (candidates-apart db call.now.instant until id row at holds early) _
        (candidates-IsCandidate call.now.instant db call.limit v) in
    (
      rw same (c.others id apart ∙ at),
      (rw outs (claimed_apart _ call.clock id _ apart), rw same c.valid),
    )

-- On a valid outbox, until its lease ends, no claim of any workers returns a claimed row again, and
-- the row stays as the claim left it: the claims may be any number, each at a time before the end of
-- the lease.
pub leased-claim_calls :
    (latest : ℕ) (db : Database) (until id : ℕ) (row : StoredNotification) (calls : List Call)
    → IsValid db
    → row_at id db.rows ≡ some row
    → row.status ≡ delivering
    → row.lease_until ≡ some until
    → All (λ call. call.now.instant < until) calls
    → All (λ r. r.id ≢ id) (claim_calls latest db calls).0
      × (row_at id (claim_calls latest db calls).1.rows ≡ some row)
unfolding claim_calls
leased-claim_calls latest db until id row [] v at status lease h = (tt, at)
leased-claim_calls latest db until id row (call ∷ calls) v at status lease (early, h) =
    let result = claim_notifications latest db call.clock call.now call.limit call.duration in
    let (kept, (apart, valid)) =
      leased_call latest db call until id row v at (status, lease) early result refl in
    let (later, last) =
      leased-claim_calls latest (outcome db result) until id row calls valid kept status lease h in
    (All-append (λ r. r.id ≢ id) (returned result) _ apart later, last)
