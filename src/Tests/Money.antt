-- ===== src/Tests/Money.antt =====
-- Currencies and sums.
use mint_flow.Prelude.{◌+◌, ◌≤◌, ◌≡◌, ◌↔◌}
use mint_flow.Prelude.Result.{ok}
use mint_flow.Domain.Money.{CurrencyCode, Money, eur, add, max_minor_units}
use mint_flow.Domain.Money.Laws.{add_iff}
use mint_flow.Tests.Ascii.{ascii}

abbrev euros : Money
euros = record { minor_units = 1250; currency = eur }

add_iff_example : (add euros euros ≡ ok (record { minor_units = 2500; currency = eur })) ↔ (
    (◌≡◌ {A = CurrencyCode} eur eur)
    × (1250 + 1250 ≤ max_minor_units eur)
    × (◌≡◌ {A = Money}
        (record { minor_units = 2500; currency = eur })
        (record { minor_units = 1250 + 1250; currency = eur })))
add_iff_example = add_iff euros euros (record { minor_units = 2500; currency = eur })
