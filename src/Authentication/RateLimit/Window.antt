-- ===== src/Authentication/RateLimit/Window.antt =====
-- Where the windows of the rate limits lie.
use mint_flow.Prelude.{◌+◌, ◌-◌, ◌%◌, ◌≤◌, ◌<◌, ◌≡◌, ◌↔◌, sym, ◌∙◌, arith}
use mint_flow.Prelude.Datetime.{Instant}
use mint_flow.Authentication.RateLimit.{window_start}

window_start-eq : (t : Instant) → window_start t ≡ t - t % 900000000
unfolding window_start
window_start-eq t = omega arith

window_below : (t : Instant) → (t - t % 900000000 ≤ t) × (t < t - t % 900000000 + 900000000)
window_below t = (omega arith, omega arith)

same_start :
    (t u : Instant)
    → t - t % 900000000 ≤ u
    → u < t - t % 900000000 + 900000000
    → u - u % 900000000 ≡ t - t % 900000000
same_start t u le lt = omega arith

-- The start of the window of an instant is at most 15 minutes before it, and the instants with the
-- same start are exactly those from the start to 15 minutes after it.
pub window_start-partition :
    (t u : Instant)
    → (window_start t ≤ t)
      × (t < window_start t + 900000000)
      × ((window_start u ≡ window_start t)
          ↔ ((window_start t ≤ u) × (u < window_start t + 900000000)))
window_start-partition t u =
    let (below, above) = window_below t in
    let (below', above') = window_below u in
    (
      rw (window_start-eq t) below,
      rw (window_start-eq t) above,
      (λ e. inside e, λ h. outside h.0 h.1),
    )
  where
    inside :
        window_start u ≡ window_start t → (window_start t ≤ u) × (u < window_start t + 900000000)
    inside e = let (below, above) = window_below u in rw (sym e, window_start-eq u) (below, above)

    outside : window_start t ≤ u → u < window_start t + 900000000 → window_start u ≡ window_start t
    outside le lt =
        window_start-eq u
        ∙ same_start t u (rw (window_start-eq t) at le) (rw (window_start-eq t) at lt)
        ∙ sym (window_start-eq t)
