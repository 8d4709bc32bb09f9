-- ===== src/Backpressure/Tests.antt =====
-- Polls of a monitor, and the theorems at inputs that meet their hypotheses.
use clartt_capital.Common.{
  ℕ, ◌≡◌, refl, Bool, true, false, Option, some, none, List, [], ◌∷◌, String, map, arith,
}
use clartt_capital.Backpressure.{
  BackpressureMonitor, Group, text, number, field, lag_in, get_consumer_lag, should_publish, polls,
}
use clartt_capital.Backpressure.Throttle.{never_held_back}

abbrev monitor : Bool → BackpressureMonitor
monitor paused = record {
  group_name = "strategy-engine";
  high_water_mark = 100;
  low_water_mark = 20;
  paused = paused;
}

abbrev no_texts : String → Option ℕ
no_texts t = none

-- A reply with the field that the monitor reads.
abbrev counted : ℕ → Option (List Group)
counted n = some ((("name", text "strategy-engine") ∷ ("pel-count", number n) ∷ []) ∷ [])

-- A reply as Redis documents it.
abbrev reply : ℕ → List Group
reply n = (("name", text "strategy-engine") ∷ ("pending", number n) ∷ []) ∷ []

-- Held back at 150 until the lag is down at 20.
swings :
    polls no_texts
      (counted 99 ∷ counted 150 ∷ counted 50 ∷ counted 20 ∷ counted 99 ∷ [])
      (monitor false)
    ≡ true ∷ false ∷ false ∷ true ∷ true ∷ []
unfolding polls should_publish get_consumer_lag lag_in field
swings = refl

never_held_back_example :
    polls no_texts (map some (reply 5000 ∷ reply 9000 ∷ [])) (monitor false) ≡ true ∷ true ∷ []
never_held_back_example =
    never_held_back no_texts (reply 5000 ∷ reply 9000 ∷ []) (monitor false) refl (omega arith)
      (((refl, (refl, tt)), tt), (((refl, (refl, tt)), tt), tt))
