-- ===== src/Domain/Category.antt =====
-- src/mintflow/domain/capture/category.py, and the check of category keys that draft.py and
-- expense.py repeat.
use mint_flow.Prelude.{Bool, true, false, not, ◌&&◌, ◌||◌, ℕ, if◌then◌else◌}
use mint_flow.Prelude.Text.{Text, Unicode, codes, is_empty, strip, text_eq}
use mint_flow.Prelude.Result.{Result, ok, ◌>>◌, raise_if}
use mint_flow.Domain.Errors.{ValueError, unstable_key, empty_category_name, uncategorized_inactive}

abbrev pub uncategorized_key : Text
uncategorized_key = codes "uncategorized"

pub record Category : Type 0 where
  pub id : ℕ
  pub key : Text
  pub name : Text
  pub is_active : Bool

-- `_require_stable_key`
unfoldable pub require_stable_key : ⦃u : Unicode⦄ → Text → Result ValueError (Unit {0})
unfolding strip text_eq
require_stable_key ⦃u⦄ category_key =
    let normalized = u.lower (strip category_key) in
    raise_if (is_empty normalized || not (text_eq normalized category_key)) unstable_key

-- `Category.__post_init__`
unfoldable pub check_category : ⦃u : Unicode⦄ → Category → Result ValueError Category
unfolding strip text_eq
check_category ⦃u⦄ c = do
  raise_if (not (text_eq c.key (u.lower (strip c.key))) || is_empty c.key) unstable_key
  raise_if (is_empty (strip c.name)) empty_category_name
  raise_if (text_eq c.key uncategorized_key && not c.is_active) uncategorized_inactive
  ok c

-- `dataclasses.replace` runs `__post_init__` again.
unfoldable pub deactivate : ⦃u : Unicode⦄ → Category → Result ValueError Category
unfolding check_category text_eq
deactivate c = do
  raise_if (text_eq c.key uncategorized_key) uncategorized_inactive
  if not c.is_active then ok c else check_category (record c { is_active = false })

unfoldable pub activate : ⦃u : Unicode⦄ → Category → Result ValueError Category
unfolding check_category
activate c = if c.is_active then ok c else check_category (record c { is_active = true })
