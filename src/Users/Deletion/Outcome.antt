-- ===== src/Users/Deletion/Outcome.antt =====
-- What a person gets who confirms the deletion of the account by typing its address:
-- `ConfirmAndDeleteAccount` of src/mintflow/application/users/deletion.py.
use mint_flow.Prelude.{
  ℕ, true, false, Option, none, some, ◌≡◌, ◌≢◌, refl, ◌⊎◌, inl, inr, ◌==◌, Bool-cases,
}
use mathlib.Core.Option.{some-injective}
use mint_flow.Prelude.Datetime.{Instant}
use mint_flow.Prelude.Result.{Result, ok, err}
use mint_flow.Prelude.Text.{Text, text_eq, text_eq_refl, text_eq→eq}
use mint_flow.Authentication.Store.{account_deleted, succeeded}
use mint_flow.Users.Deletion.{
  NormalizedEmail, normalize_email, canonical_email, confirm_and_delete, confirm_typed, execute,
  is_address,
}
use mint_flow.Users.Deletion.Kept.{IsSeparate}
use mint_flow.Users.Deletion.Erased.{erased, delete_account-erases}
use mint_flow.Users.Deletion.References.{Tables, any}
use mint_flow.Users.Deletion.Statements.{AccountDeletion, DeletionError, not_confirmed, user_key}

-- what `DeleteAccount.execute` asks of the repository
abbrev pub deletion_at : ℕ → Instant → AccountDeletion
deletion_at user_id now = record {
  user_id = user_id;
  deleted_at = now;
  audit_record = record {
    occurred_at = now;
    event_type = account_deleted;
    outcome = succeeded;
    user_id = none;
    subject_record_id = none;
  };
}

-- The typed address is valid, and normalized it is the one of the account.
pub Matches : Option NormalizedEmail → Option Text → Type 0
Matches typed account_email =
    (n : NormalizedEmail) × (typed ≡ some n) × (account_email ≡ some n.canonical_email)

pub Outcome : Result DeletionError Tables → Option NormalizedEmail → Option Text → Tables → Type 0
unfolding Matches
Outcome result typed account_email final =
    (Matches typed account_email × (result ≡ ok final))
    ⊎ (¬ (Matches typed account_email) × (result ≡ err not_confirmed))

address_cases :
    (o : Option Text) (n : NormalizedEmail)
    → ((o ≡ some n.canonical_email) × (is_address o n.canonical_email ≡ true))
      ⊎ ((o ≢ some n.canonical_email) × (is_address o n.canonical_email ≡ false))
unfolding text_eq
address_cases none n = inr ((λ e. cc), refl)
address_cases (some a) n = elim (Bool-cases (text_eq n.canonical_email a)) [
  | inl h ↦ let e = text_eq→eq n.canonical_email a h in inl (rw e (refl, text_eq_refl a))
  | inr h ↦ inr ((λ e. let p = text_eq_refl a in cc), h)
]

typed_cases :
    (typed : Option NormalizedEmail) (account_email : Option Text) (user_id : ℕ) (now : Instant)
    (t : Tables)
    → IsSeparate t
    → any (λ u. user_key u == user_id) t.accounts.users ≡ true
    → Outcome
        (confirm_typed typed account_email user_id now t)
        typed
        account_email
        (erased (deletion_at user_id now) t)
unfolding Outcome Matches execute
typed_cases none o user_id now t separate here = inr ((λ (n, e, e'). cc), refl)
typed_cases (some n) o user_id now t separate here = elim (address_cases o n) [
  | inl (e, h) ↦
      inl (
        (n, refl, e),
        (rw (h, delete_account-erases (deletion_at user_id now) t separate here) refl),
      )
  | inr (differs, h) ↦ inr ((λ (m, e, e'). differs (rw (some-injective _ _ e) e')), (rw h refl))
]

-- The account is deleted exactly where the typed address is valid and, normalized as at sign-in, is
-- the address of the account; else nothing is deleted and the caller learns that the deletion is not
-- confirmed. The account is one that exists, in tables whose rows refer to rows of their own user
-- only, and whatever the package accepts as an address.
pub confirm_and_delete_cases :
    (validate_email : Text → Option Text) (user_id : ℕ) (typed_email : Text) (now : Instant)
    (t : Tables)
    → IsSeparate t
    → any (λ u. user_key u == user_id) t.accounts.users ≡ true
    → Outcome
        (confirm_and_delete validate_email user_id typed_email now t)
        (normalize_email validate_email typed_email)
        (canonical_email user_id t)
        (erased (deletion_at user_id now) t)
unfolding confirm_and_delete
confirm_and_delete_cases validate_email user_id typed_email now t separate here =
    typed_cases (normalize_email validate_email typed_email) (canonical_email user_id t) user_id now
      t separate here
