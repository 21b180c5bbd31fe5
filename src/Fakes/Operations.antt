-- ===== src/Fakes/Operations.antt =====
-- src/pa/fakes/control.rs: `FakeOperation`, its order and its places in the array of states.
use agent_voice.Common.{ℕ, ◌<◌, ◌≡◌, refl, sym, ap, ◌∙◌, List, [], ◌∷◌, get_or, arith}

pub data FakeOperation : Type 0 where
  mail_sync : FakeOperation
  mail_send : FakeOperation
  mail_labels : FakeOperation
  calendar_busy : FakeOperation
  calendar_sync : FakeOperation
  calendar_owner_create : FakeOperation
  calendar_owner_find : FakeOperation
  calendar_proposal_create : FakeOperation
  calendar_proposal_find : FakeOperation
  calendar_promote : FakeOperation
  calendar_delete : FakeOperation
  triage_classify : FakeOperation
  backup_put : FakeOperation
  backup_list : FakeOperation
  backup_get : FakeOperation
  backup_delete : FakeOperation

-- `FakeOperation::ALL`
abbrev all_operations : List FakeOperation
all_operations =
    mail_sync ∷ mail_send ∷ mail_labels ∷ calendar_busy ∷ calendar_sync ∷ calendar_owner_create
    ∷ calendar_owner_find ∷ calendar_proposal_create ∷ calendar_proposal_find ∷ calendar_promote
    ∷ calendar_delete ∷ triage_classify ∷ backup_put ∷ backup_list ∷ backup_get ∷ backup_delete ∷ []

unfoldable pub index : FakeOperation → ℕ
index mail_sync = 0
index mail_send = 1
index mail_labels = 2
index calendar_busy = 3
index calendar_sync = 4
index calendar_owner_create = 5
index calendar_owner_find = 6
index calendar_proposal_create = 7
index calendar_proposal_find = 8
index calendar_promote = 9
index calendar_delete = 10
index triage_classify = 11
index backup_put = 12
index backup_list = 13
index backup_get = 14
index backup_delete = 15

index-get_or :
    (operation : FakeOperation) → get_or all_operations (index operation) mail_sync ≡ operation
unfolding index
index-get_or mail_sync = refl
index-get_or mail_send = refl
index-get_or mail_labels = refl
index-get_or calendar_busy = refl
index-get_or calendar_sync = refl
index-get_or calendar_owner_create = refl
index-get_or calendar_owner_find = refl
index-get_or calendar_proposal_create = refl
index-get_or calendar_proposal_find = refl
index-get_or calendar_promote = refl
index-get_or calendar_delete = refl
index-get_or triage_classify = refl
index-get_or backup_put = refl
index-get_or backup_list = refl
index-get_or backup_get = refl
index-get_or backup_delete = refl

pub index-lt : (operation : FakeOperation) → index operation < 16
unfolding index
index-lt mail_sync = omega arith
index-lt mail_send = omega arith
index-lt mail_labels = omega arith
index-lt calendar_busy = omega arith
index-lt calendar_sync = omega arith
index-lt calendar_owner_create = omega arith
index-lt calendar_owner_find = omega arith
index-lt calendar_proposal_create = omega arith
index-lt calendar_proposal_find = omega arith
index-lt calendar_promote = omega arith
index-lt calendar_delete = omega arith
index-lt triage_classify = omega arith
index-lt backup_put = omega arith
index-lt backup_list = omega arith
index-lt backup_get = omega arith
index-lt backup_delete = omega arith

-- Each operation stands in `ALL` at its index, so different operations have different places.
pub index-injective : (a b : FakeOperation) → index a ≡ index b → a ≡ b
index-injective a b h =
    sym (index-get_or a) ∙ ap (λ i. get_or all_operations i mail_sync) h ∙ index-get_or b
