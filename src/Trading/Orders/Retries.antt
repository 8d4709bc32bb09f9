-- ===== src/Trading/Orders/Retries.antt =====
-- The attempts to submit an order. (trade_executor.py, the loop of `_execute_broker_call`)
use clartt_capital.Common.{
  ℕ, zero, suc, ◌+◌, ◌<◌, ◌≡◌, refl, sym, subst, ap, inl, inr, String, arith,
}
use clartt_capital.Floats.{Floats}
use clartt_capital.Breaker.{Outcome, Outcome-cases, returned, raised}
use clartt_capital.Trading.Models.{Signal}
use clartt_capital.Trading.Orders.Broker.{
  OrderResult, Clients, World, max_retries, backoff_seconds, sleep,
}
use clartt_capital.Trading.Orders.Execute.{send_attempts, symbol_of}

abbrev pub Raises {ℓ} : {A : Type ℓ} → Outcome A → Type 0
Raises (returned a) = ⊥
Raises (raised e) = Unit {0}

module _ {N : Floats} (X : Clients N) where
  module _ (c : X.Client) (s : Signal N) where
    -- One submission, and the broker after the first ones.
    abbrev pub once : X.State → X.State × Outcome (OrderResult N)
    once st = X.send_order c (symbol_of s) s st

    unfoldable pub sends : ℕ → X.State → X.State
    sends zero st = st
    sends (suc n) st = sends n (once st).0

    unfoldable pub answer : ℕ → X.State → Outcome (OrderResult N)
    unfolding sends
    answer n st = (once (sends n st)).1

    -- At most `n` submissions: those before the last raise, and the last one answers; or all raise.
    abbrev pub Submitted : ℕ → X.State → X.State → Outcome (OrderResult N) → Type 0
    Submitted n st st' out =
        (k : ℕ) × (k < n)
        × ((j : ℕ) → j < k → Raises (answer j st))
        × (st' ≡ sends (suc k) st)
        × (out ≡ answer k st)
        × (Raises out → suc k ≡ n)

    later :
        (k : ℕ) (st : X.State)
        → Raises (once st).1
        → ((j : ℕ) → j < k → Raises (answer j (once st).0))
        → (j : ℕ) → j < suc k
        → Raises (answer j st)
    unfolding answer sends
    later k st r h zero l = r
    later k st r h (suc j) l = h j (omega arith)

    one_more :
        (n : ℕ) (st st' : X.State) (out : Outcome (OrderResult N))
        → Raises (once st).1
        → Submitted n (once st).0 st' out
        → Submitted (suc n) st st' out
    unfolding answer sends
    one_more n st st' out r (k, l, before, is, o, last) =
        (suc k, omega arith, later k st r before, is, o, (λ h. ap suc (last h)))

    attempts-Submitted :
        (n attempt : ℕ) (last : String) (w : World X)
        → let (w', out) = send_attempts X (suc n) attempt last c s w in
          Submitted (suc n) w.state w'.state out
    unfolding send_attempts answer sends
    attempts-Submitted zero attempt last w = elim (Outcome-cases (once w.state).1) [
      | inl (o, e) ↦
          rw (e, send_attempts)
            (0, omega arith, (λ j l. absurd (omega arith)), refl, sym e, λ h. refl)
      | inr (x, e) ↦
          rw (e, send_attempts)
            (0, omega arith, (λ j l. absurd (omega arith)), refl, sym e, λ h. refl)
    ]
    attempts-Submitted (suc n) attempt last w = elim (Outcome-cases (once w.state).1) [
      | inl (o, e) ↦
          rw (e, send_attempts)
            (0, omega arith, (λ j l. absurd (omega arith)), refl, sym e, λ h. absurd h)
      | inr (x, e) ↦
          rw (e, send_attempts)
            (one_more (suc n) w.state _ _ (subst Raises (sym e) tt) (
              attempts-Submitted n (attempt + 1) x
                (sleep X (backoff_seconds attempt) (record w { state = (once w.state).0 }))))
    ]

    -- Submitting an order asks the broker at most three times, and again only after a submission that
    -- has raised: what comes out is the last answer, and it is an exception only if all three were.
    pub order_submissions :
        (w : World X)
        → let (w', out) = send_attempts X max_retries 0 "None" c s w in
          Submitted 3 w.state w'.state out
    order_submissions w = attempts-Submitted 2 0 "None" w
