-- ===== src/Trading/Worker/Consent.antt =====
-- A worker whose desk asks the monitor of the autopilot. (account_worker.py, autopilot_monitor.py)
use clartt_capital.Common.{ℕ, ◌≡◌, sym, ◌∙◌, true, Option, none, some, List, [], ◌∷◌, ◌++◌, String}
use clartt_capital.Floats.{Floats}
use clartt_capital.Breaker.{Outcome, returned, raised}
use clartt_capital.Trading.Models.{TradeExecutionResult}
use clartt_capital.Trading.Consumer.{Stream, Call, ends, never}
use clartt_capital.Trading.Worker.Models.{Desk, Worker, World}
use clartt_capital.Trading.Worker.Cycle.{process_one_cycle}
use clartt_capital.Trading.Worker.Gates.{Through, cycle_trades}
use clartt_capital.Trading.Autopilot
use clartt_capital.Trading.Autopilot.Consent.{any_consents, enabled_has_consent}

-- The desk asks a monitor that its state holds: what Redis would answer, and the inputs that the
-- monitor has had.
pub record IsMonitored {N : Floats} (X : Desk N) : Type 0 where
  pub inputs : X.State → List Autopilot.Input
  pub answer : X.State → Autopilot.Answer
  pub has_autopilot : X.has_autopilot ≡ true
  pub asks :
      (id : String) (st : X.State)
      → (X.autopilot_enabled id st).1
        ≡ (Autopilot.is_enabled (answer st) id (Autopilot.run (inputs st) Autopilot.init)).1

module _ {N : Floats} (R : Stream N) (X : Desk N) (show_int : ℕ → String) (M : IsMonitored X) where
  abbrev pub Allowed :
      Worker N → X.State → Call (Outcome (Option (TradeExecutionResult N))) → Type 0
  Allowed k st (ends (returned (some r))) =
      any_consents k.account.id (M.inputs st ++ (Autopilot.asked (M.answer st) k.account.id ∷ []))
      ≡ true
  Allowed k st (ends (returned none)) = Unit {0}
  Allowed k st (ends (raised e)) = Unit {0}
  Allowed k st never = Unit {0}

  Through-Allowed :
      (k : Worker N) (w : World R X) (k' : Worker N) (w' : World R X)
      (out : Call (Outcome (Option (TradeExecutionResult N))))
      → Through R X show_int k w (k', w') out
      → Allowed k (X.kill_switch_active w.state).0 out
  Through-Allowed k w k' w' (ends (returned (some r))) (off, on, h) =
      let st = (X.kill_switch_active w.state).0 in
      enabled_has_consent (M.inputs st) (M.answer st) k.account.id
        (sym (M.asks k.account.id st) ∙ on M.has_autopilot)
  Through-Allowed k w k' w' (ends (returned none)) h = tt
  Through-Allowed k w k' w' (ends (raised e)) h = tt
  Through-Allowed k w k' w' never h = tt

  -- A cycle of a worker that has a monitor of the autopilot does not end in a trade for an account
  -- unless a message about that account, or an answer of Redis to a question about it, has told the
  -- monitor that its autopilot is on.
  pub trade_has_consent :
      (fuel : ℕ) (k : Worker N) (w : World R X)
      → Allowed k (X.kill_switch_active w.state).0 (process_one_cycle R X show_int fuel k w).1
  trade_has_consent fuel k w =
      let ((k', w'), out) = process_one_cycle R X show_int fuel k w in
      Through-Allowed k w k' w' out (cycle_trades R X show_int fuel k w)
