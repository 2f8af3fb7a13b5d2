-- ===== src/Tests/Telegram.antt =====
-- The linking ceremony of one user and one account.
use mint_flow.Prelude.{ℕ, ◌≡◌, refl, true, none, some, [], ◌∷◌}
use mint_flow.Prelude.Text.{codes}
use mint_flow.Prelude.Datetime.{aware}
use mint_flow.Prelude.Int.{pos}
use mint_flow.Prelude.Result.{ok}
use mint_flow.Authentication.Store.{
  Store, WebSession, TelegramConnection, TelegramConversation, amount, TelegramLinkChallenge,
  telegram_link_claimed, telegram_linked, telegram_unlinked,
}
use mint_flow.Domain.User
use mint_flow.Domain.User.{User}
use mint_flow.Telegram.Links.{
  create_challenge, claim, unlink, new_challenge, link_audit, claimed,
  active_connection_for_telegram_user,
}
use mint_flow.Telegram.Links.Confirming.{confirm, new_connection}
use mint_flow.Telegram.Links.Views.{resolve, link_status, connected}
use mint_flow.Telegram.Links.Ceremony.{confirm-Links, Links, confirm_once}
use mint_flow.Telegram.Links.Accounts.{resolve_injective}
use mint_flow.Telegram.Links.Exclusive.{
  IsExclusive, links-IsExclusive, Reach, here, next, issued, claimed_by, confirmed_by,
}
use mint_flow.Telegram.Links.Unlinking.{unlink-Unlinked, Unlinked}

abbrev ada : User
ada = User.new_user 5 (aware 2000 (pos 0)) (record {
  timezone = record { value = codes "UTC" };
  default_currency = none;
  ui_language = record { value = codes "en" };
  locale = none;
})

abbrev session : WebSession
session = record {
  id = 6;
  user_id = 5;
  secret_hash = 88;
  issued_at = 2000;
  expires_at = 2592000002000;
  revoked_at = none;
}

abbrev waits_of : ℕ → TelegramConversation
waits_of user_id = record {
  user_id = user_id;
  active_draft_id = some 20;
  awaiting = amount;
  currency_is_default = true;
  updated_at = 2500;
  pending_receipt_file_id = none;
}

abbrev before : Store
before = record {
  users = ada ∷ [];
  identities = [];
  login_challenges = [];
  sessions = session ∷ [];
  link_challenges = [];
  connections = [];
  conversations = waits_of 5 ∷ waits_of 4 ∷ [];
  audit_records = [];
}

abbrev challenge : TelegramLinkChallenge
challenge = new_challenge 11 55 5 6 3000

abbrev after_issue : Store
after_issue = record before { link_challenges = challenge ∷ [] }

abbrev taken : TelegramLinkChallenge
taken = claimed 900 (some (codes "Ada")) 4000 challenge

abbrev after_claim : Store
after_claim = record after_issue {
  link_challenges = taken ∷ [];
  audit_records = link_audit telegram_link_claimed 5 11 4000 ∷ [];
}

abbrev connection : TelegramConnection
connection = new_connection 12 5 900 (some (codes "Ada")) 5000

abbrev after_confirm : Store
after_confirm = record after_claim {
  link_challenges = record taken { confirmed_at = some 5000 } ∷ [];
  connections = connection ∷ [];
  audit_records = link_audit telegram_linked 5 12 5000 ∷ after_claim.audit_records;
}

abbrev after_unlink : Store
after_unlink = record after_confirm {
  connections = record connection { unlinked_at = some 6000 } ∷ [];
  conversations = waits_of 4 ∷ [];
  audit_records = link_audit telegram_unlinked 5 12 6000 ∷ after_confirm.audit_records;
}

issues : create_challenge 11 55 5 6 3000 before ≡ ok after_issue
unfolding create_challenge
issues = refl

claims : claim 55 900 (some (codes "Ada")) 4000 after_issue ≡ ok (some taken, after_claim)
unfolding claim
claims = refl

confirms : confirm 11 6 12 5000 after_claim ≡ ok (some connection, after_confirm)
unfolding confirm
confirms = refl

unlinks : unlink 5 6000 after_confirm ≡ ok (true, after_unlink)
unfolding unlink
unlinks = refl

resolves : resolve 900 after_confirm ≡ some ada
unfolding resolve active_connection_for_telegram_user
resolves = refl

abbrev ceremony : Reach before after_confirm
ceremony =
    next
      (next (next here (issued 11 55 5 6 3000 issues))
        (claimed_by 55 900 (some (codes "Ada")) 4000 claims))
      (confirmed_by 11 6 12 5000 confirms)

links-IsExclusive_example : IsExclusive after_confirm.connections
links-IsExclusive_example = links-IsExclusive refl ceremony

resolve_injective_example : ◌≡◌ {A = ℕ} 900 900
resolve_injective_example = resolve_injective 900 900 refl ceremony resolves resolves refl

confirm-Links_example : Links 11 6 5000 after_claim connection after_confirm
confirm-Links_example = confirm-Links 11 6 12 5000 after_claim connection confirms

confirm_once_example :
    (confirm 11 7 13 7000 after_confirm ≡ ok (none, after_confirm))
    × (link_status 11 6 7000 after_confirm ≡ some connected)
confirm_once_example = confirm_once 11 6 7 12 13 5000 7000 after_claim connection confirms

unlink-Unlinked_example : Unlinked 5 after_confirm after_unlink true
unlink-Unlinked_example = unlink-Unlinked 5 6000 after_confirm unlinks
