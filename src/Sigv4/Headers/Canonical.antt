-- ===== src/Sigv4/Headers/Canonical.antt =====
-- src/pa/sigv4.rs: the results of `canonical_headers`.
use mathlib.Core.Path.{subst}
use agent_voice.Common.{
  ◌≡◌, refl, Bool, true, false, not, ◌||◌, some, List, [], ◌∷◌, Bytes, bytes_eq, bytes_eq→eq, codes,
  Bool-cases, inl, inr,
}
use agent_voice.Common.Results.{ok, guard, ok_or, ok-injective, bind_ok, guard_ok, ok_or_ok}
use agent_voice.Common.Order.{bytes_leb, insert_sorted, sort}
use agent_voice.Common.OrderLaws.{bytes_leb-IsTotal}
use agent_voice.Sigv4.Timestamp.{validate_timestamp}
use agent_voice.Sigv4.Headers.{
  CanonicalHeader, name_leb, has_duplicate, find_header, is_empty, normalize_headers, check_headers,
  canonical_headers,
}

-- Each name is before the next one, and not equal to it.
abbrev StrictlyAfter : Bytes → List CanonicalHeader → Type 0
StrictlyAfter name [] = Unit
StrictlyAfter name (h ∷ headers) =
    ((bytes_leb name h.name ≡ true) × (bytes_eq name h.name ≡ false)) × StrictlyAfter h.name headers

abbrev StrictlyOrdered : List CanonicalHeader → Type 0
StrictlyOrdered [] = Unit
StrictlyOrdered (h ∷ headers) = StrictlyAfter h.name headers

abbrev Ordered : Bytes → List CanonicalHeader → Type 0
Ordered name [] = Unit
Ordered name (h ∷ headers) = (bytes_leb name h.name ≡ true) × Ordered h.name headers

Ordered-insert :
    (name : Bytes) (h : CanonicalHeader) (headers : List CanonicalHeader)
    → bytes_leb name h.name ≡ true
    → Ordered name headers
    → Ordered name (insert_sorted name_leb h headers)
unfolding insert_sorted
Ordered-insert name h [] le o = (le, tt)
Ordered-insert name h (next ∷ headers) le (le_next, o) = elim (Bool-cases (name_leb h next)) [
  | inl e ↦ rw e (le, (e, o))
  | inr e ↦
      rw e
        (le_next, Ordered-insert next.name h headers (bytes_leb-IsTotal.total h.name next.name e) o)
]

Ordered-sort : (headers : List CanonicalHeader) → Ordered [] (sort name_leb headers)
unfolding sort bytes_leb
Ordered-sort [] = tt
Ordered-sort (h ∷ headers) = Ordered-insert [] h (sort name_leb headers) refl (Ordered-sort headers)

StrictlyAfter-of_Ordered :
    (h : CanonicalHeader) (headers : List CanonicalHeader)
    → Ordered h.name headers
    → has_duplicate (h ∷ headers) ≡ false
    → StrictlyAfter h.name headers
unfolding has_duplicate
StrictlyAfter-of_Ordered h [] o d = tt
StrictlyAfter-of_Ordered h (next ∷ headers) (le, o) d =
    elim (Bool-cases (bytes_eq h.name next.name)) [
      | inl e ↦ cc (rw (e, ◌||◌) at d)
      | inr e ↦ ((le, e), StrictlyAfter-of_Ordered next headers o (rw (e, ◌||◌) at d))
    ]

StrictlyOrdered-of_Ordered :
    (headers : List CanonicalHeader)
    → Ordered [] headers
    → has_duplicate headers ≡ false
    → StrictlyOrdered headers
StrictlyOrdered-of_Ordered [] o d = tt
StrictlyOrdered-of_Ordered (h ∷ headers) (le, o) d = StrictlyAfter-of_Ordered h headers o d

pub record IsCanonical (headers : List CanonicalHeader) (payload_sha256 : Bytes) : Type 0 where
  pub ordered : StrictlyOrdered headers
  pub host :
      (h : CanonicalHeader) × ((find_header (codes "host") headers ≡ some h)
        × (is_empty h.value ≡ false))
  pub payload :
      (h : CanonicalHeader) × ((find_header (codes "x-amz-content-sha256") headers ≡ some h)
        × (h.value ≡ payload_sha256))
  pub dated :
      (h : CanonicalHeader) × (date : Bytes) × ((find_header (codes "x-amz-date") headers ≡ some h)
        × (validate_timestamp h.value ≡ ok date))

not-true : (b : Bool) → not b ≡ true → b ≡ false
not-true false h = refl
not-true true h = cc

check_headers-IsCanonical :
    (headers : List CanonicalHeader) (payload_sha256 : Bytes)
    → Ordered [] headers
    → check_headers headers payload_sha256 ≡ ok tt
    → IsCanonical headers payload_sha256
unfolding check_headers
check_headers-IsCanonical headers payload_sha256 o run =
    let (_, (no_duplicate, run)) = bind_ok (guard (not (has_duplicate headers)) _) _ run in
    let (host, (host_at, run)) = bind_ok (ok_or (find_header (codes "host") headers) _) _ run in
    let (_, (host_value, run)) = bind_ok (guard (not (is_empty host.value)) _) _ run in
    let (payload, (payload_at, run)) =
      bind_ok (ok_or (find_header (codes "x-amz-content-sha256") headers) _) _ run in
    let (_, (payload_value, run)) =
      bind_ok (guard (bytes_eq payload.value payload_sha256) _) _ run in
    let (dated, (dated_at, run)) =
      bind_ok (ok_or (find_header (codes "x-amz-date") headers) _) _ run in
    let (date, (date_value, run)) = bind_ok (validate_timestamp dated.value) _ run in
    record {
      ordered = StrictlyOrdered-of_Ordered headers o (not-true _ (guard_ok _ _ no_duplicate));
      host = (host, (ok_or_ok _ _ host_at, not-true _ (guard_ok _ _ host_value)));
      payload = (
        payload,
        (
          ok_or_ok _ _ payload_at,
          bytes_eq→eq payload.value payload_sha256 (guard_ok _ _ payload_value),
        ),
      );
      dated = (dated, date, (ok_or_ok _ _ dated_at, date_value));
    }

-- The headers that are signed have distinct names in ascending order, among them a host that is not
-- empty, the hash of the payload and a valid date.
pub canonical_headers-IsCanonical :
    (headers : List (Bytes × Bytes)) (payload_sha256 : Bytes) (canonical : List CanonicalHeader)
    → canonical_headers headers payload_sha256 ≡ ok canonical
    → IsCanonical canonical payload_sha256
unfolding canonical_headers
canonical_headers-IsCanonical headers payload_sha256 canonical run =
    let (unsorted, (_, run)) = bind_ok (normalize_headers headers) _ run in
    let (_, (checked, same)) =
      bind_ok (check_headers (sort name_leb unsorted) payload_sha256) _ run in
    subst (λ h. IsCanonical h payload_sha256) (ok-injective same)
      (check_headers-IsCanonical (sort name_leb unsorted) payload_sha256 (Ordered-sort unsorted)
        checked)
