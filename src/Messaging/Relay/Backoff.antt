-- ===== src/Messaging/Relay/Backoff.antt =====
-- The delays of a relay after failures.
use food_delivery_api.Common.{ℕ, zero, suc, ◌*◌, ◌≤◌, ◌≡◌, min, err, arith}
use food_delivery_api.Messaging.Relay.{OutboxRelayOptions, Relay, reschedule, new_relay}

abbrev pub power_of_two : ℕ → ℕ
power_of_two zero = 1
power_of_two (suc n) = power_of_two n * 2

mul_two : (a b : ℕ) → a * (b * 2) ≡ a * b * 2
mul_two a b = omega arith

module _ {ℓ} {E : Type ℓ} (options : OutboxRelayOptions) where
  -- The relay after a number of failures in a row.
  unfoldable pub after_failures : ℕ → E → Relay → Relay
  unfolding reschedule
  after_failures zero error relay = relay
  after_failures (suc n) error relay = reschedule options (err error) (after_failures n error relay)

  -- After n failures in a row of a new relay whose interval is at most the maximum, the backoff is
  -- the interval times 2 to the n, cut off at the maximum.
  pub after_failures-backoff :
      (n : ℕ) (error : E)
      → options.interval_ms ≤ options.max_backoff_ms
      → (after_failures n error (new_relay options)).current_backoff_ms
        ≡ min (options.interval_ms * power_of_two n) options.max_backoff_ms
  unfolding after_failures reschedule
  after_failures-backoff zero error le = ground arith
  after_failures-backoff (suc n) error le =
      ground
        (arith, after_failures-backoff n error le, mul_two options.interval_ms (power_of_two n))
