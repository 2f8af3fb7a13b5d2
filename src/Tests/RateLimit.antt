-- ===== src/Tests/RateLimit.antt =====
-- Reservations of two keys in one window.
use mint_flow.Prelude.{ℕ, ◌≡◌, refl, [], ◌∷◌, arith}
use mint_flow.Authentication.RateLimit.{RateLimitReservation, email_delivery}
use mint_flow.Authentication.RateLimit.Grants.{granted, granted-eq_min}

abbrev of_key : ℕ → RateLimitReservation
of_key key = record {
  dimension = email_delivery;
  key_digest = key;
  window_started_at = 0;
  expires_at = 86400000000;
  limit = 3;
}

granted-eq_min_example :
    granted (of_key 1) (of_key 1 ∷ of_key 2 ∷ of_key 1 ∷ of_key 1 ∷ of_key 1 ∷ []) [] ≡ 3
granted-eq_min_example =
    granted-eq_min (of_key 1) (of_key 1 ∷ of_key 2 ∷ of_key 1 ∷ of_key 1 ∷ of_key 1 ∷ [])
      (omega arith) (λ e. refl, (λ e. refl, (λ e. refl, (λ e. refl, (λ e. refl, tt)))))
