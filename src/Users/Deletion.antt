-- ===== src/Users/Deletion.antt =====
-- The deletion of an account: src/mintflow/application/users/deletion.py, and the tables whose rows
-- go with it, with the references of src/mintflow/infrastructure/persistence/models.py. An exception
-- rolls the transaction back, so it carries no tables.
pub mod References
pub mod Statements
pub mod Unreferenced
pub mod Kept
pub mod Erased
pub mod Outcome
use mint_flow.Prelude.{
  ℕ, Bool, true, false, Option, none, some, List, ◌∷◌, map, filter, find, ◌||◌, ◌==◌, not,
  if◌then◌else◌,
}
use mint_flow.Prelude.Datetime.{Instant}
use mint_flow.Prelude.Result.{Result, ok, err, ◌>>=◌}
use mint_flow.Prelude.Text.{Text, strip, text_eq}
use mint_flow.Authentication.Store.{
  Store, EmailIdentity, AuthenticationAuditRecord, account_deleted, succeeded,
}
use mint_flow.Users.Deletion.References.{Tables}
use mint_flow.Users.Deletion.Statements.{
  AccountDeletion, DeletionError, not_confirmed, delete_account,
}

-- `canonical_email` of the repository
unfoldable pub canonical_email : ℕ → Tables → Option Text
canonical_email user_id t =
    elim (find (λ (i : EmailIdentity). i.user_id == user_id) t.accounts.identities) [
      | none ↦ none
      | some i ↦ some i.canonical_email
    ]

-- `DeleteAccount.execute`; the clock is the argument `now`
unfoldable pub execute : ℕ → Instant → Tables → Result DeletionError (Bool × Tables)
unfolding delete_account
execute user_id now t =
    delete_account
      (record {
        user_id = user_id;
        deleted_at = now;
        audit_record = record {
          occurred_at = now;
          event_type = account_deleted;
          outcome = succeeded;
          user_id = none;
          subject_record_id = none;
        };
      })
      t

-- `normalize_email` of src/mintflow/application/authentication/email.py; `validate_email` is the
-- package's, which returns the normalized address or raises
pub record NormalizedEmail : Type 0 where
  pub canonical_email : Text
  pub display_email : Text

abbrev normalized_as : Text → Option Text → Option NormalizedEmail
normalized_as display_email none = none
normalized_as display_email (some normalized) =
    some (record { canonical_email = normalized; display_email = display_email })

unfoldable pub normalize_email : (Text → Option Text) → Text → Option NormalizedEmail
unfolding strip
normalize_email validate_email submitted_email =
    let display_email = strip submitted_email in
    normalized_as display_email (validate_email display_email)

-- `account_email is not None and typed == account_email`
abbrev pub is_address : Option Text → Text → Bool
is_address none typed = false
is_address (some account_email) typed = text_eq typed account_email

abbrev pub confirm_typed :
    Option NormalizedEmail → Option Text → ℕ → Instant → Tables → Result DeletionError Tables
confirm_typed none account_email user_id now t = err not_confirmed
confirm_typed (some typed) account_email user_id now t =
    if is_address account_email typed.canonical_email
    then (execute user_id now t >>= λ (deleted, t'). ok t')
    else err not_confirmed

-- `ConfirmAndDeleteAccount.execute`
unfoldable pub confirm_and_delete :
    (Text → Option Text) → ℕ → Text → Instant → Tables → Result DeletionError Tables
unfolding execute normalize_email canonical_email text_eq
confirm_and_delete validate_email user_id typed_email now t =
    confirm_typed (normalize_email validate_email typed_email) (canonical_email user_id t) user_id
      now t
