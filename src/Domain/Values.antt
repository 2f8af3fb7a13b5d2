-- ===== src/Domain/Values.antt =====
-- src/mintflow/domain/capture/values.py: transaction dates and merchant names.
use mint_flow.Prelude.{ℕ, Bool, false, [], ◌∷◌, ◌&&◌, length, ltb, leb, if◌then◌else◌}
use mint_flow.Prelude.Text.{Text, is_empty, is_space, strip}
use mint_flow.Prelude.Result.{Result, ok, ◌>>◌, require, raise_if}
use mint_flow.Domain.Errors.{ValueError, bad_year, empty_merchant, long_merchant}
use mint_flow.Calendar.{Date}

abbrev pub min_year : ℕ
min_year = 2000

abbrev pub max_year : ℕ
max_year = 2100

pub record TransactionDate : Type 0 where
  pub value : Date

unfoldable pub make_transaction_date : Date → Result ValueError TransactionDate
make_transaction_date value = do
  require (leb min_year value.year && leb value.year max_year) bad_year
  ok (record { value = value })

abbrev pub max_merchant_length : ℕ
max_merchant_length = 140

pub record MerchantName : Type 0 where
  pub value : Text

-- `re.sub(r"\s+", " ", s)`: the flag says whether the previous character was white space.
unfoldable pub collapse : Bool → Text → Text
collapse in_space [] = []
collapse in_space (c ∷ s) =
    let rest = collapse (is_space c) s in
    if is_space c then (if in_space then rest else b' ' ∷ rest) else c ∷ rest

unfoldable pub make_merchant : Text → Result ValueError MerchantName
unfolding collapse strip
make_merchant value = do
  let normalized = collapse false (strip value)
  raise_if (is_empty normalized) empty_merchant
  raise_if (ltb max_merchant_length (length normalized)) long_merchant
  ok (record { value = normalized })
