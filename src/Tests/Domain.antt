-- ===== src/Tests/Domain.antt =====
-- The domain's theorems at concrete drafts, expenses and receipts.
use mint_flow.Prelude.{◌≡◌, ◌↔◌, refl, true, none, some, arith}
use mint_flow.Prelude.Text.{codes}
use mint_flow.Prelude.Datetime.{Datetime, aware}
use mint_flow.Prelude.Int.{pos}
use mint_flow.Prelude.Result.{ok, err}
use mint_flow.Domain.Errors.{stale_attempt, not_claimable}
use mint_flow.Domain.Category.{require_stable_key}
use mint_flow.Domain.Money.{Money, eur}
use mint_flow.Domain.Values.{TransactionDate}
use mint_flow.Domain.Receipt
use mint_flow.Domain.Receipt.{Receipt, RecognitionResult, queued, processing}
use mint_flow.Domain.Receipt.Attempts
use mint_flow.Domain.Receipt.Attempts.{
  superseded_never_finishes, lease_excludes, lease_expires, removed_never_claimed, received-IsValid,
}
use mint_flow.Domain.Draft.{CaptureDraft, telegram_receipt, awaiting_recognition, cancelled, user}
use mint_flow.Domain.Draft.Edit
use mint_flow.Domain.Draft.Lifecycle
use mint_flow.Domain.Draft.Recognition
use mint_flow.Domain.Draft.Steps
use mint_flow.Domain.Draft.Steps.{caller, system, Step, Reach, here, next}
use mint_flow.Domain.Draft.Invariant.{IsWellFormed, Reach-IsWellFormed}
use mint_flow.Domain.Draft.Frame.{may_follow, Step-may_follow, Reach-finished}
use mint_flow.Domain.Draft.Outcome.{
  Recognized, apply_recognition-Recognized, confirm_succeeds, MayConfirm, confirmed_into,
}
use mint_flow.Domain.Expense
use mint_flow.Domain.Expense.{Expense, NewExpense}
use mint_flow.Domain.Expense.Steps as ExpenseSteps
use mint_flow.Domain.Expense.Steps.{
  IsValid, SameExpense, created-IsValid, Reach-SameExpense, restore-delete,
}
use mint_flow.Tests.Ascii.{ascii}

abbrev noon : Datetime
noon = aware 1000 (pos 0)

abbrev ten_euro : Money
ten_euro = record { minor_units = 1000; currency = eur }

abbrev day : TransactionDate
day = record { value = record { year = 2026; month = 5; day = 17 } }

abbrev result : RecognitionResult
result = record {
  id = 40;
  receipt_id = 3;
  attempt_id = 30;
  owner_id = 2;
  merchant = none;
  transaction_date = some day;
  total = some (record { minor_units = 999; currency = eur });
  created_at = 1000;
}

abbrev waiting : CaptureDraft
waiting = record {
  id = 1;
  owner_id = 2;
  source = telegram_receipt;
  state = awaiting_recognition;
  revision = 0;
  amount = none;
  amount_source = none;
  transaction_date = none;
  transaction_date_source = none;
  merchant = none;
  merchant_source = none;
  category_key = none;
  category_key_source = none;
  note = none;
  expense_id = none;
  created_at = 1000;
  modified_at = 1000;
  confirmed_at = none;
  receipt_id = some 3;
  recognition_result_id = none;
}

waiting-starts : Lifecycle.start_from_receipt 1 2 3 noon ≡ ok waiting
unfolding Lifecycle.start_from_receipt
waiting-starts = refl

abbrev typed : CaptureDraft
typed = record waiting { amount = some ten_euro; amount_source = some user; revision = 1 }

typed-steps : Step (caller 2) waiting typed
unfolding Edit.set_amount
typed-steps = Step.set_amount ten_euro noon user refl

abbrev filled : CaptureDraft
filled = Recognition.recognized_draft typed result (codes "uncategorized") noon

filled-eq : Recognition.apply_recognition typed result (codes "uncategorized") noon ≡ ok filled
unfolding Recognition.apply_recognition require_stable_key
filled-eq = refl

filled-steps : Step system typed filled
filled-steps = Step.apply_recognition result (codes "uncategorized") noon filled-eq

abbrev dropped : CaptureDraft
dropped = record filled { state = cancelled; modified_at = 1000 }

dropped-steps : Step (caller 2) filled dropped
unfolding Lifecycle.cancel
dropped-steps = Step.cancel noon refl

abbrev to_filled : Reach waiting filled
to_filled = next (next here typed-steps) filled-steps

Reach-IsWellFormed_example : IsWellFormed filled
Reach-IsWellFormed_example =
    Reach-IsWellFormed (Steps.Started.start_from_receipt 1 2 3 noon waiting-starts) to_filled

Step-may_follow_example : may_follow typed.state filled.state ≡ true
Step-may_follow_example = Step-may_follow filled-steps

-- The call that a finished draft still accepts, and that leaves it alone.
still_dropped : Reach dropped dropped
unfolding Lifecycle.continue_manually
still_dropped = next here (Step.continue_manually {c = 2} noon refl)

Reach-finished_example : dropped ≡ dropped
Reach-finished_example = Reach-finished refl still_dropped

apply_recognition-Recognized_example : Recognized typed result (codes "uncategorized") filled
apply_recognition-Recognized_example =
    apply_recognition-Recognized typed result (codes "uncategorized") noon filled-eq

abbrev bought : CaptureDraft
bought = confirmed_into 77 noon filled

confirm_succeeds_example :
    (Lifecycle.confirm filled 2 77 noon ≡ ok bought)
    ↔ (MayConfirm filled 2 noon × (bought ≡ confirmed_into 77 noon filled))
confirm_succeeds_example = confirm_succeeds filled 2 77 noon bought

filled_confirms : Lifecycle.confirm filled 2 77 noon ≡ ok bought
unfolding Lifecycle.confirm
filled_confirms = refl

abbrev lunch : NewExpense
lunch = record {
  owner_id = 2;
  money = ten_euro;
  transaction_date = day;
  category_key = codes "food";
  capture_draft_id = 1;
  merchant = none;
  note = none;
  source = telegram_receipt;
  receipt_id = some 3;
}

abbrev expense : Expense
expense = record {
  id = 77;
  owner_id = 2;
  money = ten_euro;
  transaction_date = day;
  merchant = none;
  category_key = codes "food";
  note = none;
  source = telegram_receipt;
  capture_draft_id = 1;
  receipt_id = some 3;
  created_at = 1000;
  modified_at = 1000;
  deleted_at = none;
}

abbrev deleted : Expense
deleted = record expense { deleted_at = some 1000; modified_at = 1000 }

expense-created : Expense.create 77 lunch noon ≡ ok expense
unfolding Expense.create require_stable_key
expense-created = refl

expense-deleted : Expense.delete expense noon ≡ ok deleted
unfolding Expense.delete
expense-deleted = refl

abbrev to_deleted : ExpenseSteps.Reach expense deleted
to_deleted =
    ExpenseSteps.Reach.next ExpenseSteps.Reach.here (ExpenseSteps.Step.delete noon expense-deleted)

created-IsValid_example : IsValid deleted
created-IsValid_example = created-IsValid 77 lunch noon expense-created to_deleted

abbrev later : Datetime
later = aware 5000 (pos 120)

abbrev fresh_receipt : Receipt
fresh_receipt = record {
  id = 3;
  owner_id = 2;
  state = queued;
  attempt_id = none;
  lease_expires_at = none;
  image_removed_at = none;
  created_at = 1000;
  modified_at = 1000;
}

abbrev first : Receipt
first = record fresh_receipt {
  state = processing;
  attempt_id = some 30;
  lease_expires_at = some 1500;
}

abbrev second : Receipt
second = record first { attempt_id = some 31; lease_expires_at = some 5500; modified_at = 5000 }

receipt-received : Receipt.receive 3 2 noon ≡ ok fresh_receipt
unfolding Receipt.receive
receipt-received = refl

first-claimed : Receipt.claim 30 fresh_receipt noon (pos 500) ≡ ok first
unfolding Receipt.claim
first-claimed = refl

second-claimed : Receipt.claim 31 first later (pos 500) ≡ ok second
unfolding Receipt.claim
second-claimed = refl

abbrev bare : Receipt
bare = record second { image_removed_at = some 5000; modified_at = 5000 }

image-removed : Receipt.remove_image second later ≡ ok bare
unfolding Receipt.remove_image
image-removed = refl

superseded_never_finishes_example :
    (Receipt.complete bare 30 later ≡ err stale_attempt)
    × (Receipt.fail bare 30 later ≡ err stale_attempt)
superseded_never_finishes_example =
    superseded_never_finishes 30 31 later (pos 500) first later (omega arith) second-claimed (
      Attempts.Without.next Attempts.Without.here (Attempts.Step.remove_image later image-removed)
        tt)

lease_excludes_example : Receipt.claim 31 first (aware 1499 (pos 0)) (pos 500) ≡ err not_claimable
lease_excludes_example =
    lease_excludes 30 31 1000 500 1499 (pos 0) (pos 0) (pos 500) fresh_receipt first-claimed
      (omega arith)

bare-completes :
    Receipt.complete bare 31 later
    ≡ ok (record bare { state = Receipt.recognized; lease_expires_at = none; modified_at = 5000 })
unfolding Receipt.complete
bare-completes = refl

received-IsValid_example : Attempts.IsValid second
received-IsValid_example = received-IsValid 3 2 noon receipt-received (
    Attempts.Reach.then_step
      (Attempts.Reach.then_step Attempts.Reach.start
        (Attempts.Step.claim 30 noon (pos 500) first-claimed))
      (Attempts.Step.claim 31 later (pos 500) second-claimed))
