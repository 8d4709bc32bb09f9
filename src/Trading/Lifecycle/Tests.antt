-- ===== src/Trading/Lifecycle/Tests.antt =====
-- Entries and exits at a broker that refuses some modifications, and the theorems at inputs that meet
-- their hypotheses.
use clartt_capital.Common.{
  ℕ, zero, suc, ◌≡◌, ◌≢◌, refl, true, false, Option, some, none, [], ◌∷◌, String, Bool,
}
use clartt_capital.Floats.Naturals.{naturals, unary}
use clartt_capital.Trading.Models.{TradeExecutionStatus}
use clartt_capital.Trading.Samples.{signal, account, result}
use clartt_capital.Trading.Lifecycle.{
  Executor, World, trade_entry, opened_event, attempts, attach_sl_tp, place_entry,
}
use clartt_capital.Trading.Lifecycle.Protection.{Outcome, attach_sl_tp_attempts}
use clartt_capital.Trading.Lifecycle.Books.{place_entry_books}

abbrev modify : ℕ → ℕ × Bool
modify zero = (0, true)
modify (suc n) = (n, false)

-- The broker fills every order and refuses as many modifications as its state says.
abbrev broker : Executor naturals
broker = record {
  Broker = ℕ;
  execute = λ s a b. (b, result TradeExecutionStatus.filled);
  modify_order = λ id a sl tp b. modify b;
  close_position = λ id a b. (b, result TradeExecutionStatus.filled);
}

abbrev idle_world : ℕ → World broker
idle_world n = record { broker = n; published = [] }

abbrev clock : String → String → Option ℕ
clock ts fmt = none

-- Two refusals are made up for, three are not.
second_chance : (attach_sl_tp broker 7 90 130 (some (account 1000)) (idle_world 2)).1 ≡ true
unfolding attach_sl_tp attempts
second_chance = refl

given_up : (attach_sl_tp broker 7 90 130 (some (account 1000)) (idle_world 3)).1 ≡ false
unfolding attach_sl_tp attempts
given_up = refl

attach_sl_tp_attempts_example :
    let (w', ok) = attach_sl_tp broker 7 90 130 (some (account 1000)) (idle_world 2) in
    Outcome broker 7 90 130 (account 1000) 3 2 (w'.broker, ok) × (w'.published ≡ [])
attach_sl_tp_attempts_example = attach_sl_tp_attempts broker 7 90 130 (account 1000) (idle_world 2)

place_entry_books_example :
    let r = result TradeExecutionStatus.filled in
    let (w', out) = place_entry broker true unary signal (account 1000) (idle_world 5) in
    (out ≡ r)
    × (r.status ≡ TradeExecutionStatus.filled
        → (w'.broker ≡ (attempts broker 3 7 90 130 (account 1000) 5).0)
          × (w'.published ≡ (
              trade_entry (account 1000) r (some signal)
              ∷ opened_event broker true unary r signal (account 1000)
              ∷ [])))
    × (r.status ≢ TradeExecutionStatus.filled → (w'.broker ≡ 5) × (w'.published ≡ []))
place_entry_books_example = place_entry_books broker true unary signal (account 1000) (idle_world 5)
