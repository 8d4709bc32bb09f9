-- ===== src/Trading/Lifecycle/Protection.antt =====
-- Attaching the stop loss and the take profit. (trade_lifecycle_manager.py, `attach_sl_tp`)
use clartt_capital.Common.{
  ℕ, zero, suc, ◌≡◌, ◌<◌, ◌⊎◌, inl, inr, refl, Bool, true, false, some, Bool-cases, arith,
}
use clartt_capital.Floats.{Floats}
use clartt_capital.Trading.Models.{TradingAccount}
use clartt_capital.Trading.Lifecycle.{Executor, World, attempts, attach_sl_tp}

module _ {N : Floats} (X : Executor N) (id : ℕ) (sl tp : N.F) (a : TradingAccount N) where
  -- The broker after the first calls of `modify_order`, and what the next one answers.
  unfoldable pub tries : ℕ → X.Broker → X.Broker
  tries zero b = b
  tries (suc n) b = tries n (X.modify_order id a sl tp b).0

  unfoldable pub answer : ℕ → X.Broker → Bool
  unfolding tries
  answer n b = (X.modify_order id a sl tp (tries n b)).1

  -- What a run of at most `n` attempts ends in, from the answers alone.
  abbrev pub Outcome : ℕ → X.Broker → X.Broker × Bool → Type 0
  Outcome n b out =
      ((k : ℕ) × (k < n)
        × ((j : ℕ) → j < k → answer j b ≡ false)
        × (answer k b ≡ true)
        × (out ≡ (tries (suc k) b, true)))
      ⊎ (((j : ℕ) → j < n → answer j b ≡ false) × (out ≡ (tries n b, false)))

  earlier :
      (k : ℕ) (b : X.Broker)
      → (X.modify_order id a sl tp b).1 ≡ false
      → ((j : ℕ) → j < k → answer j (X.modify_order id a sl tp b).0 ≡ false)
      → (j : ℕ) → j < suc k
      → answer j b ≡ false
  unfolding answer
  earlier k b e h zero l = e
  earlier k b e h (suc j) l = h j (ground arith)

  one_more :
      (n : ℕ) (b : X.Broker) (out : X.Broker × Bool)
      → (X.modify_order id a sl tp b).1 ≡ false
      → Outcome n (X.modify_order id a sl tp b).0 out
      → Outcome (suc n) b out
  unfolding answer tries
  one_more n b out e (inl (k, l, before, now, is)) =
      inl (suc k, ground arith, earlier k b e before, now, is)
  one_more n b out e (inr (before, is)) = inr (earlier n b e before, is)

  attempts-Outcome : (n : ℕ) (b : X.Broker) → Outcome n b (attempts X n id sl tp a b)
  unfolding attempts answer tries
  attempts-Outcome zero b = inr ((λ j l. ground arith), refl)
  attempts-Outcome (suc n) b = elim (Bool-cases (X.modify_order id a sl tp b).1) [
    | inl e ↦ rw (e, attempts) (inl (0, ground arith, (λ j l. ground arith), e, refl))
    | inr e ↦
        rw (e, attempts) (one_more n b _ e (attempts-Outcome n (X.modify_order id a sl tp b).0))
  ]

  -- With an account, `attach_sl_tp` asks the broker again until an attempt succeeds, at most three
  -- times: it returns True with the first success, after no further call, and False when all three
  -- have failed. It publishes nothing.
  pub attach_sl_tp_attempts :
      (w : World X)
      → let (w', ok) = attach_sl_tp X id sl tp (some a) w in
        Outcome 3 w.broker (w'.broker, ok) × (w'.published ≡ w.published)
  unfolding attach_sl_tp
  attach_sl_tp_attempts w = (attempts-Outcome 3 w.broker, refl)
