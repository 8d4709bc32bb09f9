-- ===== src/Trading/Worker/Simulate.antt =====
-- `simulate_signal`: a synthetic entry at the current price through every gate. The texts that explain
-- a step are left out, and `validate` does not raise on a signal that carries its metadata.
use clartt_capital.Common.{
  ℕ, Bool, true, false, not, ◌&&◌, none, some, [], ◌∷◌, ◌++◌, String, if◌then◌else◌,
}
use clartt_capital.Floats.{Floats}
use clartt_capital.Breaker.{Outcome, returned, raised}
use clartt_capital.Trading.Models.{Signal, SignalDirection, TradeExecutionResult}
use clartt_capital.Trading.Risk.{validate}
use clartt_capital.Trading.Worker.Models.{Desk, Worker}
use clartt_capital.Trading.Worker.Cycle.{symbol_for, is_filled}
use clartt_capital.Trading.Worker.Synthetic.{
  Plumbing, Report, Bench, rec, first_gates, price_of, levels_at, synthetic,
}

module _ {N : Floats} (X : Desk N) (C : Plumbing X) (show_int : ℕ → String) where
  -- A filled order is written to the database and handed to the monitor, which may raise.
  unfoldable pub keep_fill :
      Worker N → Signal N → TradeExecutionResult N → X.State → X.State × Outcome (Unit {0})
  keep_fill k s r st =
      let kept = if X.has_persister then X.record_entry s k.account r st else st in
      if is_filled r.status
      then if X.has_monitor
        then X.track_position r.order_id s k.account r.fill_price kept
        else (kept, returned tt)
      else (st, returned tt)

  -- The real order. Whatever raises is a step that failed.
  unfoldable pub place : Worker N → Signal N → Report N → Bench X → Bench X × Report N
  unfolding rec keep_fill
  place k s r w =
      let (st, out) = X.execute s k.account w.state in
      let w' : Bench X = record w { state = st; sent = w.sent ++ (s ∷ []) } in
      elim out [
        | raised e ↦ (w', rec "execution" false r)
        | returned o ↦
            let (st', kept) = keep_fill k s o st in
            let done =
              rec "execution" (is_filled o.status)
                (record r { placed = true; execution = some o }) in
            (
              record w' { state = st' },
              elim kept [ raised e ↦ rec "execution" false done | returned _ ↦ done ],
            )
      ]

  -- The order that the report allows, if a live one is asked for.
  unfoldable pub order :
      Worker N → (place_live : Bool) → Signal N → Report N → Bench X → Bench X × Report N
  unfolding rec place
  order k place_live s r w =
      if place_live
      then if r.would_trade then place k s r w else (w, rec "execution" false r)
      else (w, r)

  -- From the risk validation on; `open_gates` is what the kill switch and the autopilot say.
  unfoldable pub finish :
      Worker N
      → (place_live : Bool) → (open_gates : Bool) → Signal N
      → Report N
      → Bench X
      → Bench X × Report N
  unfolding rec order
  finish k place_live open_gates s r w =
      let (st, now) = X.now w.state in
      let w' : Bench X = record w { state = st } in
      let approved = (validate N k.risk_manager show_int now s k.account).approved in
      order k place_live s (record (rec "risk" approved r) { would_trade = open_gates && approved })
        w'

  -- From the broker's client on.
  unfoldable pub price_and_finish :
      Worker N
      → (id created_at : String) → (instrument : String) → SignalDirection
      → (place_live open_gates : Bool) → C.Client
      → Report N
      → Bench X
      → Bench X × Report N
  unfolding rec levels_at synthetic finish symbol_for
  price_and_finish k id created_at instrument direction place_live open_gates c r w =
      let symbol : String = elim (symbol_for instrument k.broker_symbol_map) [
        | none ↦ instrument
        | some t ↦ t
      ] in
      let (st, out) = C.connect_with_retry k.account c w.state in
      let (st', tick) = C.get_symbol_info_tick c symbol st in
      let w' : Bench X = record w { state = st' } in
      elim out [
        | raised e ↦ (record w { state = st }, rec "broker_connect" false r)
        | returned _ ↦ elim (price_of N tick) [
          | none ↦ (w', rec "current_price" false (rec "broker_connect" true r))
          | some price ↦
              let l = levels_at N direction price in
              finish k place_live open_gates (synthetic k id created_at instrument direction l)
                (record (rec "current_price" true (rec "broker_connect" true r)) {
                  signal = some l;
                })
                w'
        ]
      ]

  -- The autopilot is asked only where there is one.
  unfoldable pub ask_autopilot : Worker N → X.State → X.State × Bool
  ask_autopilot k st = if X.has_autopilot then X.autopilot_enabled k.account.id st else (st, true)

  unfoldable pub simulate_signal :
      Worker N
      → (id created_at : String) → (instrument : String) → SignalDirection
      → (place_live : Bool) → Bench X
      → Bench X × Report N
  unfolding rec first_gates ask_autopilot price_and_finish
  simulate_signal k id created_at instrument direction place_live w =
      let (st, active) = X.kill_switch_active w.state in
      let (st', enabled) = ask_autopilot k st in
      let w' : Bench X = record w { state = st' } in
      let gated : Report N = first_gates active enabled in
      elim (C.resolve_client instrument k.account) [
        | none ↦ (w', rec "broker_resolve" false gated)
        | some c ↦
            price_and_finish k id created_at instrument direction place_live (not active && enabled)
              c (rec "broker_resolve" true gated) w'
      ]
