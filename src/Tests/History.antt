-- ===== src/Tests/History.antt =====
-- The history of a ledger, page by page.
use mint_flow.Prelude.{◌+◌, ◌≡◌, refl, arith, none, some, [], length}
use mint_flow.Capture.History.{ExpenseHistoryFilter, history}
use mint_flow.Capture.History.Pages.{HasKeys}
use mint_flow.Capture.History.Walk.{walk, walk-history}
use mint_flow.Tests.Analytics.{ledger}

abbrev anything : ExpenseHistoryFilter
anything = record { date_from = none; date_to = none; category_keys = []; currencies = [] }

ledger-HasKeys : HasKeys ledger
ledger-HasKeys k = ground arith

walk-history_example :
    walk ledger 2 anything 1 (length (history ledger 2 anything none) + 1) none
    ≡ some (history ledger 2 anything none)
walk-history_example = walk-history ledger ledger-HasKeys 2 anything 1 (omega arith) (omega arith)

two_rows : length (history ledger 2 anything none) ≡ 2
unfolding history
two_rows = refl
