-- ===== src/Domain/User.antt =====
-- src/mintflow/domain/user/model.py: the user, its status and its preferences.
pub mod Preferences
pub mod Laws
use mint_flow.Prelude.{
  ℕ, Bool, true, false, Option, none, some, not, ◌&&◌, ltb, is_none, if◌then◌else◌,
}
use mint_flow.Prelude.Text.{Text, Unicode, codes}
use mint_flow.Prelude.Datetime.{Datetime, is_aware, aware, astimezone_utc}
use mint_flow.Prelude.Int.{pos}
use mint_flow.Prelude.Result.{Result, ok, err, ◌>>=◌, ◌>>◌, require, raise_if}
use mint_flow.Domain.Errors.{
  ValueError, naive_datetime, status_mismatch, deactivated_before_created, require_aware,
}
use mint_flow.Domain.Money.{CurrencyCode, make_currency}
use mint_flow.Domain.User.Preferences.{
  Zones, Timezone, Locale, UiLanguage, make_timezone, make_locale, make_ui_language,
}

pub data UserStatus : Type 0 where
  active deactivated : UserStatus

abbrev pub is_active : UserStatus → Bool
is_active active = true
is_active deactivated = false

pub record User : Type 0 where
  pub id : ℕ
  pub status : UserStatus
  pub created_at : Datetime
  pub deactivated_at : Option Datetime
  pub timezone : Timezone
  pub default_currency : Option CurrencyCode
  pub ui_language : UiLanguage
  pub locale : Option Locale

abbrev is_naive_option : Option Datetime → Bool
is_naive_option none = false
is_naive_option (some t) = not (is_aware t)

abbrev is_before : Option Datetime → Datetime → Bool
is_before none created = false
is_before (some t) created = ltb (astimezone_utc t) (astimezone_utc created)

abbrev bool_eq : Bool → Bool → Bool
bool_eq true b = b
bool_eq false b = not b

-- `User.__post_init__`
unfoldable pub check_user : User → Result ValueError User
check_user u = do
  require (is_aware u.created_at) naive_datetime
  raise_if (is_naive_option u.deactivated_at) naive_datetime
  require (bool_eq (is_active u.status) (is_none u.deactivated_at)) status_mismatch
  raise_if (is_before u.deactivated_at u.created_at) deactivated_before_created
  ok u

-- the optional keyword arguments of `create`, given
pub record NewUser : Type 0 where
  pub timezone : Timezone
  pub default_currency : Option CurrencyCode
  pub ui_language : UiLanguage
  pub locale : Option Locale

abbrev pub new_user : ℕ → Datetime → NewUser → User
new_user fresh now p = record {
  id = fresh;
  status = active;
  created_at = aware (astimezone_utc now) (pos 0);
  deactivated_at = none;
  timezone = p.timezone;
  default_currency = p.default_currency;
  ui_language = p.ui_language;
  locale = p.locale;
}

-- `User.create`; a UTC datetime is an aware one of offset 0.
unfoldable pub create : ℕ → Datetime → NewUser → Result ValueError User
create fresh now p = do require_aware now; check_user (new_user fresh now p)

abbrev pub deactivated_user : User → Datetime → User
deactivated_user u now = record u {
  status = deactivated;
  deactivated_at = some (aware (astimezone_utc now) (pos 0));
}

-- `User.deactivate`; `replace` runs `__post_init__` again.
unfoldable pub deactivate : User → Datetime → Result ValueError User
deactivate u now = do
  require_aware now
  if is_active u.status then check_user (deactivated_user u now) else ok u

-- A preference that is not given, is cleared, or is given: `_UNSET`, `None` and a value.
pub data Update : Type 0 where
  unset clear : Update
  given : Text → Update

abbrev pub convert {ℓ} :
    {A : Type ℓ} → (Text → Result ValueError A) → Option Text → A → Result ValueError A
convert make none old = ok old
convert make (some raw) old = make raw

abbrev pub convert_update {ℓ} :
    {A : Type ℓ} → (Text → Result ValueError A) → Update → Option A → Result ValueError (Option A)
convert_update make unset old = ok old
convert_update make clear old = ok none
convert_update make (given raw) old = do value ← make raw; ok (some value)

abbrev pub with_preferences :
    User → Timezone → Option CurrencyCode → UiLanguage → Option Locale → User
with_preferences user timezone default_currency ui_language locale = record user {
  timezone = timezone;
  default_currency = default_currency;
  ui_language = ui_language;
  locale = locale;
}

-- `User.update_preferences`
unfoldable pub update_preferences :
    ⦃u : Unicode⦄ ⦃z : Zones⦄
    → User
    → Option Text
    → Update
    → Option Text
    → Update
    → Result ValueError User
update_preferences user timezone default_currency ui_language locale = do
  new_timezone ← convert make_timezone timezone user.timezone
  new_ui_language ← convert make_ui_language ui_language user.ui_language
  new_default_currency ← convert_update make_currency default_currency user.default_currency
  new_locale ← convert_update make_locale locale user.locale
  check_user (with_preferences user new_timezone new_default_currency new_ui_language new_locale)
