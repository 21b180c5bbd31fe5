-- ===== src/Store/Cursor/Laws.antt =====
-- src/pa/store.rs: `advance_provider_cursor` as a compare-and-set.
use agent_voice.Common.{
  ◌≡◌, ◌≢◌, refl, sym, ap, ◌∙◌, inl, inr, false, Bool-cases, Option, none, some, bytes_eq, codes,
}
use mathlib.Core.Path.{subst}
use agent_voice.Common.Assoc.{lookup, put, lookup-put, lookup-put_other}
use agent_voice.Common.Equal.{eqb, eqb→eq}
use agent_voice.Common.Results.{
  ok, err, guard, bind_ok, guard_ok, ok-injective, if_err-ok, if_err-false,
}
use agent_voice.Common.Text.{Text}
use agent_voice.Store.Errors.{StoreResult, cursor_conflict}
use agent_voice.Store.Texts.{
  traverse, validate_provider_stream_identifier, validate_provider_cursor_identifier,
}
use agent_voice.Store.Cursor.{
  Cursors, option_text_discrete, provider_cursor, read_cursor, flatten, load_provider_cursor,
  replace_cursor, advance_provider_cursor,
}

stream-same :
    (stream field : Text) (s : Text)
    → validate_provider_stream_identifier stream field ≡ ok s
    → stream ≡ s
unfolding validate_provider_stream_identifier
stream-same stream field s h = if_err-ok _ _ _ _ h

cursor-same :
    (cursor field : Text) (c : Text)
    → validate_provider_cursor_identifier cursor field ≡ ok c
    → cursor ≡ c
unfolding validate_provider_cursor_identifier
cursor-same cursor field c h = if_err-ok _ _ _ _ h

traverse-same :
    (f : Text → StoreResult Text)
    → ((a b : Text) → f a ≡ ok b → a ≡ b)
    → (o p : Option Text) → traverse f o ≡ ok p
    → o ≡ p
traverse-same f same none p h = ok-injective h
traverse-same f same (some a) p h =
    let (b, (e, last)) = bind_ok (f a) (λ c. ok (some c)) h in
    ap some (same a b e) ∙ ok-injective last

-- What a successful advance has checked, and what it replaced.
advance-parts :
    (rows final : Cursors) (stream : Text) (expected : Option Text) (next : Text)
    → advance_provider_cursor rows stream expected next ≡ ok final
    → (validate_provider_stream_identifier stream (codes "stream_id") ≡ ok stream)
      × ((traverse (λ value. validate_provider_cursor_identifier value (codes "expected")) expected
            ≡ ok expected)
          × ((validate_provider_cursor_identifier next (codes "next") ≡ ok next)
              × (replace_cursor rows stream expected next (lookup stream rows) ≡ ok final)))
unfolding advance_provider_cursor
advance-parts rows final stream expected next run =
    let (s, (at, run)) =
      bind_ok (validate_provider_stream_identifier stream (codes "stream_id")) _ run in
    let (e, (from, run)) =
      bind_ok
        (traverse (λ value. validate_provider_cursor_identifier value (codes "expected")) expected)
        _ run in
    let (n, (to, run)) = bind_ok (validate_provider_cursor_identifier next (codes "next")) _ run in
    let (_, (_, run)) = bind_ok (traverse read_cursor (flatten (lookup s rows))) _ run in
    let s_same = stream-same stream (codes "stream_id") s at in
    let e_same = traverse-same _ (λ a b. cursor-same a (codes "expected") b) expected e from in
    let n_same = cursor-same next (codes "next") n to in
    (
      at ∙ ap ok (sym s_same),
      (
        from ∙ ap ok (sym e_same),
        (
          to ∙ ap ok (sym n_same),
          subst (λ (x : Text). replace_cursor rows x expected next (lookup x rows) ≡ ok final)
              (sym s_same)
              (subst (λ (x : Option Text). replace_cursor rows s x next (lookup s rows) ≡ ok final)
                (sym e_same)
                (subst (λ (x : Text). replace_cursor rows s e x (lookup s rows) ≡ ok final)
                  (sym n_same) run)),
        ),
      ),
    )

abbrev IsAdvanced : Cursors → Cursors → Text → Option Text → Text → Type 0
IsAdvanced rows final stream expected next =
    (flatten (lookup stream rows) ≡ expected)
    × ((lookup stream final ≡ some (some next))
        × ((other : Text) → bytes_eq stream other ≡ false → lookup other final ≡ lookup other rows))

replace-IsAdvanced :
    (rows final : Cursors) (stream : Text) (expected : Option Text) (next : Text)
    (current : Option (Option Text))
    → lookup stream rows ≡ current
    → replace_cursor rows stream expected next current ≡ ok final
    → IsAdvanced rows final stream expected next
unfolding replace_cursor
replace-IsAdvanced rows final stream none next none at run =
    let same : put stream (some next) rows ≡ final = ok-injective run in
    (
      ap flatten at,
      (
        subst (λ (d : Cursors). lookup stream d ≡ some (some next)) same
            (lookup-put stream (some next) rows),
        λ other differs.
            subst (λ (d : Cursors). lookup other d ≡ lookup other rows) same
              (lookup-put_other stream other (some next) rows differs),
      ),
    )
replace-IsAdvanced rows final stream (some value) next none at run = cc
replace-IsAdvanced rows final stream expected next (some current) at run =
    let (_, (agree, last)) = bind_ok (guard (eqb option_text_discrete expected current) _) _ run in
    let same : expected ≡ current =
      eqb→eq option_text_discrete expected current (guard_ok _ _ agree) in
    elim (Bool-cases (eqb option_text_discrete current (some next))) [
      | inl e ↦
          let kept : rows ≡ final = ok-injective (rw e at last) in
          let now : current ≡ some next = eqb→eq option_text_discrete current (some next) e in
          (
            ap flatten at ∙ sym same,
            (
              subst (λ (d : Cursors). lookup stream d ≡ some (some next)) kept (at ∙ ap some now),
              λ other differs. ap (λ d. lookup other d) (sym kept),
            ),
          )
      | inr e ↦
          let made : put stream (some next) rows ≡ final = ok-injective (rw e at last) in
          (
            ap flatten at ∙ sym same,
            (
              subst (λ (d : Cursors). lookup stream d ≡ some (some next)) made
                  (lookup-put stream (some next) rows),
              λ other differs.
                  subst (λ (d : Cursors). lookup other d ≡ lookup other rows) made
                    (lookup-put_other stream other (some next) rows differs),
            ),
          )
    ]

-- A cursor advances by compare-and-set: a call that succeeds found the expected cursor (an absent
-- row and NULL are both no cursor), leaves the next one, and leaves every other stream as it was.
advance_provider_cursor_lem :
    (rows final : Cursors) (stream other : Text) (expected : Option Text) (next : Text)
    → advance_provider_cursor rows stream expected next ≡ ok final
    → bytes_eq stream other ≡ false
    → (flatten (lookup stream rows) ≡ expected)
      × ((lookup stream final ≡ some (some next)) × (lookup other final ≡ lookup other rows))
advance_provider_cursor_lem rows final stream other expected next run differs =
    let (_, (_, (_, last))) = advance-parts rows final stream expected next run in
    let (found, (set, kept)) =
      replace-IsAdvanced rows final stream expected next (lookup stream rows) refl last in
    (found, (set, kept other differs))

cursor-field :
    (cursor field other : Text)
    → validate_provider_cursor_identifier cursor field ≡ ok cursor
    → validate_provider_cursor_identifier cursor other ≡ ok cursor
unfolding validate_provider_cursor_identifier
cursor-field cursor field other h = rw (if_err-false _ _ _ _ h) refl

-- Of two calls that expect the same cursor one is refused: once a call has moved a stream away from
-- the cursor that it expected, a call that expects that cursor still is a conflict and writes
-- nothing, whatever well-formed cursor it brings; and the first call's cursor is what is loaded.
pub advance_provider_cursor_exclusive :
    (rows final : Cursors) (stream : Text) (expected : Option Text) (next late : Text)
    → advance_provider_cursor rows stream expected next ≡ ok final
    → expected ≢ some next
    → validate_provider_cursor_identifier late (codes "next") ≡ ok late
    → (load_provider_cursor final stream ≡ ok (some next))
      × (advance_provider_cursor final stream expected late ≡ err (cursor_conflict provider_cursor))
unfolding load_provider_cursor advance_provider_cursor replace_cursor
advance_provider_cursor_exclusive rows final stream expected next late run moved well_formed =
    let (at, (from, (to, last))) = advance-parts rows final stream expected next run in
    let (_, (set, _)) =
      replace-IsAdvanced rows final stream expected next (lookup stream rows) refl last in
    let readable = cursor-field next (codes "next") (codes "cursor") to in
    let differs : eqb option_text_discrete expected (some next) ≡ false =
      elim (Bool-cases (eqb option_text_discrete expected (some next))) [
        | inl e ↦ absurd (moved (eqb→eq option_text_discrete expected (some next) e))
        | inr e ↦ e
      ] in
    (rw (at, set, readable) refl, rw (at, from, well_formed, set, readable, differs) refl)
