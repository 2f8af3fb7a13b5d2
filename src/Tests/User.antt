-- ===== src/Tests/User.antt =====
-- The user's theorems at a concrete user.
use mint_flow.Prelude.{◌≡◌, refl, none, some, [], ◌∷◌}
use mint_flow.Prelude.Text.{codes, text_eq, strip}
use mint_flow.Prelude.Datetime.{Datetime, aware}
use mint_flow.Prelude.Int.{pos}
use mint_flow.Prelude.Result.{ok}
use mint_flow.Domain.Money.{eur, make_currency, currency_value}
use mint_flow.Domain.User
use mint_flow.Domain.User.{User}
use mint_flow.Domain.User.Laws
use mint_flow.Domain.User.Preferences.{Zones, make_locale, split_dashes}
use mint_flow.Tests.Ascii.{ascii}

instance abbrev utc_only : Zones
utc_only = record {
  available = λ name. text_eq name (codes "UTC");
  local_date = λ name t. record { year = 2026; month = 5; day = 17 };
}

abbrev joined : Datetime
joined = aware 500 (pos 0)

abbrev left : Datetime
left = aware 900 (pos 0)

abbrev settings : User.NewUser
settings = record {
  timezone = record { value = codes "UTC" };
  default_currency = none;
  ui_language = record { value = codes "en" };
  locale = none;
}

abbrev newcomer : User
newcomer = User.new_user 4 joined settings

abbrev polish : User
polish = record newcomer {
  default_currency = some eur;
  locale = some (record { subtags = codes "pl" ∷ codes "PL" ∷ [] });
}

creates : User.create 4 joined settings ≡ ok newcomer
unfolding User.create User.check_user
creates = refl

updates :
    User.update_preferences newcomer none
      (User.given (codes "eur"))
      none
      (User.given (codes "PL-pl"))
    ≡ ok polish
unfolding User.update_preferences User.check_user make_currency make_locale split_dashes strip
    text_eq currency_value
updates = refl

leaves : User.deactivate polish left ≡ ok (User.deactivated_user polish left)
unfolding User.deactivate User.check_user
leaves = refl

Made-IsValid_example : Laws.IsValid (User.deactivated_user polish left)
Made-IsValid_example = Laws.Made-IsValid (
    Laws.Made.deactivate left
      (Laws.Made.update none (User.given (codes "eur")) none (User.given (codes "PL-pl"))
        (Laws.Made.create 4 joined settings creates) updates)
      leaves)
