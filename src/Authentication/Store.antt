-- ===== src/Authentication/Store.antt =====
-- The tables of src/mintflow/infrastructure/persistence/models.py that sign-in, sessions and the link
-- with Telegram work on. Times are UTC and written as their instants, ids and the 32-byte digests of
-- secrets are numbers. New rows are written in front: queries do not depend on the order of rows.
-- Of the constraints the unique ones are checked where a row is inserted.
use mint_flow.Prelude.{ℕ, Bool, Option, List, ◌∷◌, ◌&&◌, ◌==◌, is_some, find}
use mint_flow.Prelude.Datetime.{Instant}
use mint_flow.Prelude.Text.{Text}
use mint_flow.Domain.User
use mint_flow.Domain.User.{User}

pub record WebSession : Type 0 where
  pub id : ℕ
  pub user_id : ℕ
  pub secret_hash : ℕ
  pub issued_at : Instant
  pub expires_at : Instant
  pub revoked_at : Option Instant

pub record LoginChallenge : Type 0 where
  pub id : ℕ
  pub canonical_email : Text
  pub token_hash : ℕ
  pub issued_at : Instant
  pub expires_at : Instant
  pub consumed_at : Option Instant
  pub return_target : Text

pub record EmailIdentity : Type 0 where
  pub user_id : ℕ
  pub canonical_email : Text
  pub display_email : Text
  pub verified_at : Instant
  pub created_at : Instant

-- src/mintflow/application/telegram/conversation.py: what the bot waits for
pub data AwaitingInput : Type 0 where
  nothing amount currency merchant category date : AwaitingInput

-- `__post_init__` is `checked` of Telegram/Conversation.antt
pub record TelegramConversation : Type 0 where
  pub user_id : ℕ
  pub active_draft_id : Option ℕ
  pub awaiting : AwaitingInput
  pub currency_is_default : Bool
  pub updated_at : Instant
  pub pending_receipt_file_id : Option Text

pub record TelegramLinkChallenge : Type 0 where
  pub id : ℕ
  pub token_hash : ℕ
  pub initiating_user_id : ℕ
  pub initiating_web_session_id : ℕ
  pub issued_at : Instant
  pub expires_at : Instant
  pub claimed_at : Option Instant
  pub claimed_telegram_user_id : Option ℕ
  pub claimed_telegram_display_name : Option Text
  pub confirmed_at : Option Instant

pub record TelegramConnection : Type 0 where
  pub id : ℕ
  pub user_id : ℕ
  pub telegram_user_id : ℕ
  pub telegram_display_name : Option Text
  pub linked_at : Instant
  pub unlinked_at : Option Instant

pub data AuthenticationAuditEventType : Type 0 where
  login_challenge_requested login_succeeded login_failed : AuthenticationAuditEventType
  current_session_revoked all_sessions_revoked : AuthenticationAuditEventType
  telegram_link_claimed telegram_linked telegram_unlinked : AuthenticationAuditEventType
  account_deleted : AuthenticationAuditEventType

pub data AuthenticationAuditOutcome : Type 0 where
  succeeded failed : AuthenticationAuditOutcome

pub record AuthenticationAuditRecord : Type 0 where
  pub occurred_at : Instant
  pub event_type : AuthenticationAuditEventType
  pub outcome : AuthenticationAuditOutcome
  pub user_id : Option ℕ
  pub subject_record_id : Option ℕ

pub record Store : Type 0 where
  pub users : List User
  pub identities : List EmailIdentity
  pub login_challenges : List LoginChallenge
  pub sessions : List WebSession
  pub link_challenges : List TelegramLinkChallenge
  pub connections : List TelegramConnection
  pub conversations : List TelegramConversation
  pub audit_records : List AuthenticationAuditRecord

-- the exceptions of a transaction, which is then rolled back
pub data StoreError : Type 0 where
  conflict bad_value : StoreError

abbrev pub add_audit : AuthenticationAuditRecord → Store → Store
add_audit r s = record s { audit_records = r ∷ s.audit_records }

abbrev pub active_in : ℕ → User → Bool
active_in user_id u = u.id == user_id && User.is_active u.status

-- `user_id in (select id from users where status = 'active')`
abbrev pub is_active_user : ℕ → Store → Bool
is_active_user user_id s = is_some (find (active_in user_id) s.users)
