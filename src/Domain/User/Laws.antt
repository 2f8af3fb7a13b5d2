-- ===== src/Domain/User/Laws.antt =====
-- What the methods of src/mintflow/domain/user/model.py keep of a user.
use mint_flow.Prelude.{ℕ, ◌≤◌, ◌≡◌, true, Option, some, is_none, arith, refl, Bool-cases, inl, inr}
use mint_flow.Prelude.Datetime.{Datetime, is_aware, astimezone_utc}
use mint_flow.Prelude.Result.{ok, ok_of_bind, ok_injective}
use mint_flow.Prelude.Text.{Text, Unicode}
use mint_flow.Domain.User.Preferences.{Zones, make_timezone, make_locale, make_ui_language}
use mint_flow.Domain.Money.{make_currency}
use mint_flow.Domain.User
use mint_flow.Domain.User.{
  User, Update, check_user, update_preferences, is_active, convert, convert_update,
}

-- A user is deactivated exactly when it has a time of deactivation; both times have an offset, and
-- the deactivation is not before the creation.
pub record IsValid (u : User) : Type 0 where
  pub created_aware : is_aware u.created_at ≡ true
  pub consistent : is_active u.status ≡ is_none u.deactivated_at
  pub deactivated_aware : (t : Datetime) → u.deactivated_at ≡ some t → is_aware t ≡ true
  pub ordered :
      (t : Datetime) → u.deactivated_at ≡ some t → astimezone_utc u.created_at ≤ astimezone_utc t

check_user-IsValid : (u : User) {v : User} → check_user u ≡ ok v → (v ≡ u) × IsValid u
unfolding check_user
check_user-IsValid u h = (
  ground arith,
  record {
    created_aware = ground arith;
    consistent = ground arith;
    deactivated_aware = λ t e. ground arith;
    ordered = λ t e. ground arith;
  },
)

create-IsValid :
    (fresh : ℕ) (now : Datetime) (p : User.NewUser) {v : User}
    → User.create fresh now p ≡ ok v
    → IsValid v
unfolding User.create
create-IsValid fresh (Datetime.naive t) p h = cc
create-IsValid fresh (Datetime.aware t o) p h =
    let (same, valid) = check_user-IsValid _ h in rw same valid

deactivate-IsValid :
    (u : User) (now : Datetime) {v : User} → User.deactivate u now ≡ ok v → IsValid u → IsValid v
unfolding User.deactivate
deactivate-IsValid u (Datetime.naive t) h valid = cc
deactivate-IsValid u (Datetime.aware t o) h valid = elim (Bool-cases (is_active u.status)) [
  | inl now_active ↦
      let (same, checked) = check_user-IsValid _ (rw now_active at h) in rw same checked
  | inr gone ↦ rw (ok_injective (rw gone at h)) valid
]

-- How an accepted change of preferences leaves the user `v`: each preference that was given is the
-- converted value, each that was not is the old one, a cleared one is gone, and nothing else moves.
pub record Updated ⦃n : Unicode⦄ ⦃z : Zones⦄ (u : User) (timezone : Option Text) (currency : Update)
    (language : Option Text) (locale : Update) (v : User) : Type 0 where
  pub timezone_from : convert make_timezone timezone u.timezone ≡ ok v.timezone
  pub language_from : convert make_ui_language language u.ui_language ≡ ok v.ui_language
  pub currency_from :
      convert_update make_currency currency u.default_currency ≡ ok v.default_currency
  pub locale_from : convert_update make_locale locale u.locale ≡ ok v.locale
  pub id : v.id ≡ u.id
  pub status : v.status ≡ u.status
  pub created_at : v.created_at ≡ u.created_at
  pub deactivated_at : v.deactivated_at ≡ u.deactivated_at
  pub valid : IsValid v

-- A change of preferences that is accepted converts every given value, keeps what is not given,
-- clears what is cleared, changes no other field and gives a valid user.
pub update_preferences-Updated :
    ⦃n : Unicode⦄ ⦃z : Zones⦄ (u : User) (timezone : Option Text) (currency : Update)
    (language : Option Text) (locale : Update) {v : User}
    → update_preferences u timezone currency language locale ≡ ok v
    → Updated u timezone currency language locale v
unfolding update_preferences
update_preferences-Updated u timezone currency language locale h =
    let (t, pt, h1) = ok_of_bind (convert make_timezone timezone u.timezone) _ h in
    let (l, pl, h2) = ok_of_bind (convert make_ui_language language u.ui_language) _ h1 in
    let (c, pc, h3) = ok_of_bind (convert_update make_currency currency u.default_currency) _ h2 in
    let (k, pk, h4) = ok_of_bind (convert_update make_locale locale u.locale) _ h3 in
    let (same, checked) = check_user-IsValid _ h4 in
    rw same (record {
      timezone_from = pt;
      language_from = pl;
      currency_from = pc;
      locale_from = pk;
      id = refl;
      status = refl;
      created_at = refl;
      deactivated_at = refl;
      valid = checked;
    })

-- A user stays valid: what `create` returns is, and so is what a deactivation or a change of
-- preferences returns of a valid user.
pub data Made ⦃n : Unicode⦄ ⦃z : Zones⦄ : User → Type 0 where
  create :
      {v : User} (fresh : ℕ) (now : Datetime) (p : User.NewUser)
      → User.create fresh now p ≡ ok v
      → Made v
  deactivate : {u v : User} (now : Datetime) → Made u → User.deactivate u now ≡ ok v → Made v
  update :
      {u v : User} (timezone : Option Text) (currency : Update) (language : Option Text)
      (locale : Update)
      → Made u
      → update_preferences u timezone currency language locale ≡ ok v
      → Made v

-- Every user that the methods produce is valid: deactivated exactly when it has a time of
-- deactivation, with times that have an offset, and not deactivated before it was created.
pub Made-IsValid : ⦃n : Unicode⦄ ⦃z : Zones⦄ {u : User} → Made u → IsValid u
Made-IsValid (Made.create fresh now p h) = create-IsValid fresh now p h
Made-IsValid (Made.deactivate now m h) = deactivate-IsValid _ now h (Made-IsValid m)
Made-IsValid (Made.update timezone currency language locale m h) =
    (update_preferences-Updated _ timezone currency language locale h).valid
