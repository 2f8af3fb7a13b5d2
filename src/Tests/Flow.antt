-- ===== src/Tests/Flow.antt =====
-- An expense that is captured in the chat.
use mint_flow.Prelude.{ℕ, false, ◌==◌, true, ◌≡◌, refl, none, some, Option, List, [], ◌∷◌, map}
use mathlib.Core.Path.{subst}
use mint_flow.Prelude.Datetime.{Datetime, aware}
use mint_flow.Prelude.Int.{pos}
use mint_flow.Prelude.Result.{Result, ok, err}
use mint_flow.Prelude.Text.{text_eq, codes}
use mint_flow.Capture.Database.{Db, get_draft}
use mint_flow.Domain.Expense.{Expense}
use mint_flow.Domain.Money.{Money, eur}
use mint_flow.Domain.User
use mint_flow.Domain.User.{User}
use mint_flow.Domain.User.Preferences.{Zones}
use mint_flow.Telegram.Flow.{Bot, Drawn, Flow, FlowError, ◌>>=◌}
use mint_flow.Telegram.Flow.Cards
use mint_flow.Telegram.Flow.Cards.{Outgoing}
use mint_flow.Telegram.Flow.Silent.{Leaves, books}
use mint_flow.Telegram.Flow.Unsaved.Entries.{update-Leaves}
use mint_flow.Telegram.Flow.Updates.{on_command, on_text, on_media, on_callback}
use mint_flow.Telegram.Conversation.{checked}
use mint_flow.Telegram.Conversation.Rows.{IsValid}
use mint_flow.Telegram.Flow.Stale.{PointsElsewhere, IsUsable, told, settled, on_callback_stale}
use mint_flow.Tests.Ascii.{ascii}
use mint_flow.Tests.Capture.{start, owner}
use mint_flow.Tests.Users.{waits_of}

abbrev noon : Datetime
noon = aware 1000 (pos 0)

-- one zone, where it is always the same day
instance abbrev utc_zone : Zones
utc_zone = record {
  available = λ name. text_eq name (codes "UTC");
  local_date = λ name t. record { year = 2026; month = 5; day = 17 };
}

abbrev ada : User
ada = User.new_user 5 noon (record {
  timezone = record { value = codes "UTC" };
  default_currency = some eur;
  ui_language = record { value = codes "en" };
  locale = none;
})

abbrev nothing_yet : Bot
nothing_yet = record {
  db = record {
    drafts = [];
    expenses = [];
    change_records = [];
    users = ada ∷ [];
    categories = record { id = 1; key = codes "food"; name = codes "Food"; is_active = true } ∷ [];
  };
  conversations = [];
  receipts = [];
}

abbrev drawn : Drawn
drawn = record { draft_id = 20; receipt_id = 30; expense_id = 40 }

-- what the chat is asked and answers, up to the confirmation
abbrev captures : Flow (List Money)
captures = do
  started ← on_command ada drawn noon Cards.add_command
  priced ← on_text ada noon (codes " 12,50 ")
  skipped ← on_callback ada drawn noon (Cards.draft_action 20 Cards.skip)
  sorted ← on_callback ada drawn noon (Cards.draft_action 20 (Cards.category (codes "food")))
  confirmed ← on_callback ada drawn noon (Cards.draft_action 20 Cards.confirm)
  (λ b. ok (map (λ (e : Expense). e.money) b.db.expenses, b))

abbrev returned : {A : Type 0} → Result FlowError (A × Bot) → Option A
returned (err e) = none
returned (ok (a, b)) = some a

captured :
    returned (captures nothing_yet) ≡ some (record { minor_units = 1250; currency = eur } ∷ [])
unfolding mint_flow.Telegram.Flow.◌>>=◌ mint_flow.Telegram.Flow.lock_user
    mint_flow.Telegram.Flow.save_conversation mint_flow.Telegram.Flow.find_draft
    mint_flow.Telegram.Flow.update_draft mint_flow.Telegram.Flow.create_draft
    mint_flow.Telegram.Flow.create_receipt mint_flow.Telegram.Flow.Cards.prompt_for
    mint_flow.Telegram.Flow.Steps.active_draft mint_flow.Telegram.Flow.Steps.cancel_draft
    mint_flow.Telegram.Flow.Steps.show_review mint_flow.Telegram.Flow.Steps.advance
    mint_flow.Telegram.Flow.Fields.set_money mint_flow.Telegram.Flow.Fields.on_typed
    mint_flow.Telegram.Flow.Fields.on_parsed_amount mint_flow.Telegram.Flow.Fields.major_units
    mint_flow.Telegram.Flow.Fields.in_currency mint_flow.Telegram.Flow.Fields.on_parsed_currency
    mint_flow.Telegram.Flow.Fields.on_parsed_merchant mint_flow.Telegram.Flow.Fields.on_amount
    mint_flow.Telegram.Flow.Fields.on_currency mint_flow.Telegram.Flow.Fields.on_merchant
    mint_flow.Telegram.Flow.Fields.set_date mint_flow.Telegram.Flow.Fields.on_parsed_date
    mint_flow.Telegram.Flow.Fields.on_date mint_flow.Telegram.Flow.Steps.create_manual_draft
    mint_flow.Telegram.Flow.Steps.create_receipt_draft mint_flow.Telegram.Flow.Steps.confirm_draft
    mint_flow.Telegram.Flow.Buttons.forget_photo mint_flow.Telegram.Flow.Buttons.is_listed
    mint_flow.Telegram.Flow.Buttons.on_continue mint_flow.Telegram.Flow.Buttons.on_category
    mint_flow.Telegram.Flow.Buttons.on_day mint_flow.Telegram.Flow.Buttons.start_over
    mint_flow.Telegram.Flow.Buttons.on_discard mint_flow.Telegram.Flow.Updates.start_with
    mint_flow.Telegram.Flow.Updates.start_capture mint_flow.Telegram.Flow.Updates.media_with
    mint_flow.Telegram.Flow.Updates.on_media mint_flow.Telegram.Flow.Updates.cancel_with
    mint_flow.Telegram.Flow.Updates.on_command mint_flow.Telegram.Flow.Updates.on_awaited
    mint_flow.Telegram.Flow.Updates.text_with mint_flow.Telegram.Flow.Updates.on_text
    mint_flow.Telegram.Flow.Buttons.on_draft_action mint_flow.Telegram.Flow.Updates.button_with
    mint_flow.Telegram.Flow.Updates.on_callback mint_flow.Telegram.Conversation.checked
    mint_flow.Telegram.Conversation.idle mint_flow.Telegram.Conversation.with_pending_receipt
    mint_flow.Telegram.Conversation.waiting_for mint_flow.Telegram.Conversation.with_draft
    mint_flow.Telegram.Conversation.finished mint_flow.Telegram.Conversation.lock
    mint_flow.Telegram.Conversation.save mint_flow.Telegram.Parsing.parse_amount
    mint_flow.Telegram.Parsing.to_money mint_flow.Telegram.Parsing.parse_currency
    mint_flow.Telegram.Parsing.date_of mint_flow.Telegram.Parsing.parse_date
    mint_flow.Domain.Draft.Edit.set_amount mint_flow.Domain.Draft.Edit.set_transaction_date
    mint_flow.Domain.Draft.Edit.set_merchant mint_flow.Domain.Draft.Edit.set_category_key
    mint_flow.Domain.Draft.Edit.set_note mint_flow.Domain.Draft.Lifecycle.start
    mint_flow.Domain.Draft.Lifecycle.start_from_receipt
    mint_flow.Domain.Draft.Lifecycle.continue_manually
    mint_flow.Domain.Draft.Lifecycle.mark_ready_for_review mint_flow.Domain.Draft.Lifecycle.confirm
    mint_flow.Domain.Draft.Lifecycle.cancel mint_flow.Domain.Draft.Lifecycle.expire
    mint_flow.Capture.ConfirmDraft.confirm_with mint_flow.Capture.ConfirmDraft.confirm_found
    mint_flow.Capture.ConfirmDraft.execute mint_flow.Domain.Category.require_stable_key
    mint_flow.Domain.Values.make_transaction_date mint_flow.Domain.Values.collapse
    mint_flow.Domain.Values.make_merchant mint_flow.Capture.Database.◌>>=◌
    mint_flow.Capture.Database.get_draft mint_flow.Capture.Database.update_draft
    mint_flow.Capture.Database.get_user mint_flow.Capture.Database.create_expense
    mint_flow.Domain.Expense.create mint_flow.Capture.Dates.is_within_future_tolerance
    mint_flow.Prelude.Text.text_eq mint_flow.Prelude.Text.strip mint_flow.Prelude.Text.lstrip
    mint_flow.Prelude.Text.is_space mint_flow.Prelude.Decimal.scaleb
    mint_flow.Domain.Money.minor_unit_exponent mint_flow.Domain.Money.make_money
    mint_flow.Domain.Money.max_minor_units mint_flow.Calendar.date_lt mint_flow.Calendar.next_day
    mint_flow.Calendar.days_in_month
captured = refl

update-Leaves_example :
    Leaves books (on_command ada drawn noon Cards.add_command)
    × Leaves books (on_text ada noon (codes "7 EUR"))
    × Leaves books (on_media ada drawn noon (codes "photo"))
    × Leaves books (on_callback ada drawn noon (Cards.draft_action 20 Cards.discard))
update-Leaves_example =
    update-Leaves ada drawn noon Cards.add_command (codes "7 EUR") (codes "photo")
      (Cards.draft_action 20 Cards.discard) (λ draft_id e. cc)

-- a draft that waits for its confirmation, at which the conversation points
abbrev in_review : Bot
in_review = record { db = start; conversations = waits_of 2 1 ∷ []; receipts = [] }

presses :
    on_callback owner drawn noon (Cards.draft_action 9 Cards.confirm) in_review
    ≡ ok (some (Cards.callback_answer (some Cards.draft_not_active) ∷ []), in_review)
unfolding mint_flow.Telegram.Flow.◌>>=◌ mint_flow.Telegram.Flow.lock_user
    mint_flow.Telegram.Flow.save_conversation mint_flow.Telegram.Flow.find_draft
    mint_flow.Telegram.Flow.update_draft mint_flow.Telegram.Flow.create_draft
    mint_flow.Telegram.Flow.create_receipt mint_flow.Telegram.Flow.Cards.prompt_for
    mint_flow.Telegram.Flow.Steps.active_draft mint_flow.Telegram.Flow.Steps.cancel_draft
    mint_flow.Telegram.Flow.Steps.show_review mint_flow.Telegram.Flow.Steps.advance
    mint_flow.Telegram.Flow.Fields.set_money mint_flow.Telegram.Flow.Fields.on_typed
    mint_flow.Telegram.Flow.Fields.on_parsed_amount mint_flow.Telegram.Flow.Fields.major_units
    mint_flow.Telegram.Flow.Fields.in_currency mint_flow.Telegram.Flow.Fields.on_parsed_currency
    mint_flow.Telegram.Flow.Fields.on_parsed_merchant mint_flow.Telegram.Flow.Fields.on_amount
    mint_flow.Telegram.Flow.Fields.on_currency mint_flow.Telegram.Flow.Fields.on_merchant
    mint_flow.Telegram.Flow.Fields.set_date mint_flow.Telegram.Flow.Fields.on_parsed_date
    mint_flow.Telegram.Flow.Fields.on_date mint_flow.Telegram.Flow.Steps.create_manual_draft
    mint_flow.Telegram.Flow.Steps.create_receipt_draft mint_flow.Telegram.Flow.Steps.confirm_draft
    mint_flow.Telegram.Flow.Buttons.forget_photo mint_flow.Telegram.Flow.Buttons.is_listed
    mint_flow.Telegram.Flow.Buttons.on_continue mint_flow.Telegram.Flow.Buttons.on_category
    mint_flow.Telegram.Flow.Buttons.on_day mint_flow.Telegram.Flow.Buttons.start_over
    mint_flow.Telegram.Flow.Buttons.on_discard mint_flow.Telegram.Flow.Updates.start_with
    mint_flow.Telegram.Flow.Updates.start_capture mint_flow.Telegram.Flow.Updates.media_with
    mint_flow.Telegram.Flow.Updates.on_media mint_flow.Telegram.Flow.Updates.cancel_with
    mint_flow.Telegram.Flow.Updates.on_command mint_flow.Telegram.Flow.Updates.on_awaited
    mint_flow.Telegram.Flow.Updates.text_with mint_flow.Telegram.Flow.Updates.on_text
    mint_flow.Telegram.Flow.Buttons.on_draft_action mint_flow.Telegram.Flow.Updates.button_with
    mint_flow.Telegram.Flow.Updates.on_callback mint_flow.Telegram.Conversation.checked
    mint_flow.Telegram.Conversation.idle mint_flow.Telegram.Conversation.with_pending_receipt
    mint_flow.Telegram.Conversation.waiting_for mint_flow.Telegram.Conversation.with_draft
    mint_flow.Telegram.Conversation.finished mint_flow.Telegram.Conversation.lock
    mint_flow.Telegram.Conversation.save mint_flow.Telegram.Parsing.parse_amount
    mint_flow.Telegram.Parsing.to_money mint_flow.Telegram.Parsing.parse_currency
    mint_flow.Telegram.Parsing.date_of mint_flow.Telegram.Parsing.parse_date
    mint_flow.Domain.Draft.Edit.set_amount mint_flow.Domain.Draft.Edit.set_transaction_date
    mint_flow.Domain.Draft.Edit.set_merchant mint_flow.Domain.Draft.Edit.set_category_key
    mint_flow.Domain.Draft.Edit.set_note mint_flow.Domain.Draft.Lifecycle.start
    mint_flow.Domain.Draft.Lifecycle.start_from_receipt
    mint_flow.Domain.Draft.Lifecycle.continue_manually
    mint_flow.Domain.Draft.Lifecycle.mark_ready_for_review mint_flow.Domain.Draft.Lifecycle.confirm
    mint_flow.Domain.Draft.Lifecycle.cancel mint_flow.Domain.Draft.Lifecycle.expire
    mint_flow.Capture.ConfirmDraft.confirm_with mint_flow.Capture.ConfirmDraft.confirm_found
    mint_flow.Capture.ConfirmDraft.execute mint_flow.Domain.Category.require_stable_key
    mint_flow.Domain.Values.make_transaction_date mint_flow.Domain.Values.collapse
    mint_flow.Domain.Values.make_merchant mint_flow.Capture.Database.◌>>=◌
    mint_flow.Capture.Database.get_draft mint_flow.Capture.Database.update_draft
    mint_flow.Capture.Database.get_user mint_flow.Capture.Database.create_expense
    mint_flow.Domain.Expense.create mint_flow.Capture.Dates.is_within_future_tolerance
    mint_flow.Prelude.Text.text_eq mint_flow.Prelude.Text.strip mint_flow.Prelude.Text.lstrip
    mint_flow.Prelude.Text.is_space mint_flow.Prelude.Decimal.scaleb
    mint_flow.Domain.Money.minor_unit_exponent mint_flow.Domain.Money.make_money
    mint_flow.Domain.Money.max_minor_units mint_flow.Calendar.date_lt mint_flow.Calendar.next_day
    mint_flow.Calendar.days_in_month
presses = refl

points : PointsElsewhere 9 2 in_review
unfolding PointsElsewhere
points row k h e =
    let p : waits_of 2 1 ≡ row = cc in let q : 1 ≡ k = cc in subst (λ n. (n == 9) ≡ false) q refl

usable : IsUsable 2 in_review
unfolding IsUsable IsValid checked
usable row h = let p : waits_of 2 1 ≡ row = cc in subst (λ c. checked c ≡ ok c) p refl

on_callback_stale_example :
    on_callback owner drawn noon (Cards.draft_action 9 Cards.confirm) in_review
    ≡ ok (
      some (Cards.callback_answer (some (told (get_draft 9 2 in_review.db))) ∷ []),
      settled 2 1000 in_review,
    )
on_callback_stale_example =
    on_callback_stale owner drawn noon 9 Cards.confirm in_review points usable
