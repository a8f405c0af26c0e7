-- ===== src/Messaging/Tests.antt =====
-- Runs of a consumer whose handler fails until its store reaches a number.
mod Relay
use food_delivery_api.Common.{
  ℕ, suc, ◌+◌, ◌≤◌, ◌≡◌, refl, [], ok, err, Action, true, ltb, if◌then◌else◌,
}
use food_delivery_api.Messaging.Consume.{Progress, Deps, consume_one_message}
use food_delivery_api.Messaging.Consume.Delivery.{
  Fate, consume_one_message-Fate, consume_one_message_attempts,
}

-- The handler counts its runs in the store, and returns from the run on that the message names.
abbrev patient : ℕ → Action ℕ ℕ (Unit {0})
patient message runs = (if ltb runs message then err runs else ok tt, suc runs)

abbrev deps : Deps ℕ ℕ ℕ ℕ
deps = record {
  decode = λ raw. ok raw;
  handler = patient;
  publish = λ attempt. true;
  max_attempts = 3;
}

abbrev idle : Progress ℕ
idle = record { store = 0; attempts = 0; dead_letters = []; drops = []; commits = 0 }

-- The third run returns, and the message is committed.
third_time : (consume_one_message deps 2 idle).attempts ≡ 3
unfolding consume_one_message
third_time = refl

consume_one_message-Fate_example : Fate deps 2 idle (consume_one_message deps 2 idle)
consume_one_message-Fate_example = consume_one_message-Fate deps 2 idle
