-- ===== src/Domain/User/Preferences.antt =====
-- src/mintflow/domain/user/preferences.py: time zones, locales and interface languages. The time
-- zone database is data that the program loads: which names it knows, and which local date a
-- name's zone has at an instant.
use mint_flow.Prelude.{
  ℕ, Bool, true, false, List, [], ◌∷◌, ◌&&◌, ◌||◌, ◌==◌, leb, length, if◌then◌else◌,
}
use mint_flow.Prelude.Text.{Text, Unicode, strip}
use mint_flow.Prelude.Datetime.{Instant}
use mint_flow.Prelude.Result.{Result, ok, ◌>>◌, require}
use mint_flow.Calendar.{Date}
use mint_flow.Domain.Errors.{ValueError, unknown_timezone, bad_locale, bad_ui_language}

pub record Zones : Type 0 where
  pub available : Text → Bool
  pub local_date : Text → Instant → Date

pub record Timezone : Type 0 where
  pub value : Text

unfoldable pub make_timezone : ⦃z : Zones⦄ → Text → Result ValueError Timezone
make_timezone ⦃z⦄ value = do
  require (z.available value) unknown_timezone
  ok (record { value = value })

abbrev is_letter : ℕ → Bool
is_letter c = (leb b'A' c && leb c b'Z') || (leb b'a' c && leb c b'z')

abbrev is_letter_or_digit : ℕ → Bool
is_letter_or_digit c = is_letter c || (leb b'0' c && leb c b'9')

abbrev all_of : (ℕ → Bool) → Text → Bool
all_of p [] = true
all_of p (c ∷ s) = p c && all_of p s

abbrev cons_to : ℕ → List Text → List Text
cons_to c [] = (c ∷ []) ∷ []
cons_to c (s ∷ rest) = (c ∷ s) ∷ rest

-- `value.split("-")`
unfoldable pub split_dashes : Text → List Text
split_dashes [] = [] ∷ []
split_dashes (c ∷ s) = let rest = split_dashes s in if c == b'-' then [] ∷ rest else cons_to c rest

abbrev are_subtags : List Text → Bool
are_subtags [] = true
are_subtags (t ∷ rest) =
    (leb 2 (length t) && (leb (length t) 8 && all_of is_letter_or_digit t)) && are_subtags rest

-- `_LOCALE_PATTERN.fullmatch`: no part of the pattern but its dashes matches a dash, so the
-- pattern is one on the subtags.
abbrev is_locale : List Text → Bool
is_locale [] = false
is_locale (t ∷ rest) =
    (leb 2 (length t) && (leb (length t) 3 && all_of is_letter t)) && are_subtags rest

module _ ⦃u : Unicode⦄ where
  abbrev normalize_subtags : List Text → List Text
  normalize_subtags [] = []
  normalize_subtags (t ∷ rest) =
      (if length t == 2 then u.upper t else u.lower t) ∷ normalize_subtags rest

  abbrev normalize_locale : List Text → List Text
  normalize_locale [] = []
  normalize_locale (t ∷ rest) = u.lower t ∷ normalize_subtags rest

-- The normalized subtags of the tag; the source joins them with dashes again.
pub record Locale : Type 0 where
  pub subtags : List Text

unfoldable pub make_locale : ⦃u : Unicode⦄ → Text → Result ValueError Locale
unfolding split_dashes
make_locale value = do
  let subtags = split_dashes value
  require (is_locale subtags) bad_locale
  ok (record { subtags = normalize_locale subtags })

pub record UiLanguage : Type 0 where
  pub value : Text

unfoldable pub make_ui_language : ⦃u : Unicode⦄ → Text → Result ValueError UiLanguage
unfolding strip
make_ui_language ⦃u⦄ value = do
  let normalized = u.lower (strip value)
  require (length normalized == 2 && all_of is_letter normalized) bad_ui_language
  ok (record { value = normalized })
