-- ===== src/Agents/Equity.antt =====
-- packages/strategy-engine/src/agents/equity_monitor.py: `EquityCurveMonitor`. The equity that the
-- backend answers with, if it answers, is an argument. Gauges are left out. What is published is kept
-- as a list.
mod Store
mod Drawdown
mod Tests
use clartt_capital.Common.{
  Bool, true, false, not, ◌&&◌, Option, none, some, List, [], ◌∷◌, ◌++◌, String, ◌<>◌, str_eq,
  if◌then◌else◌,
}
use clartt_capital.Floats.{Floats}
use clartt_capital.Redis.Values.{RedisValues}

abbrev pub hwm_key : String → String
hwm_key account_id = "equity:hwm:" <> account_id

abbrev pub pause_key : String → String
pause_key account_id = "equity:paused:" <> account_id

-- The configuration read by the constructor.
pub record Config (N : Floats) : Type 0 where
  pub max_drawdown_pct : N.F
  pub recovery_pct : N.F

-- What both publications of a change carry: the account, the peak, the equity and the drawdown.
pub data Event (N : Floats) : Type 0 where
  pause_activated : (account_id : String) → (peak equity drawdown_pct : N.F) → Event N
  pause_deactivated : (account_id : String) → (peak equity drawdown_pct : N.F) → Event N

pub record World (R : RedisValues) (N : Floats) : Type 0 where
  pub db : R.Db
  pub published : List (Event N)

-- The dictionary that `check` returns; `drawdown_pct` is not yet rounded.
pub record Checked (N : Floats) : Type 0 where
  pub paused : Bool
  pub drawdown_pct : N.F
  pub hwm : N.F
  pub current_equity : N.F

pub data Status (N : Floats) : Type 0 where
  unavailable : (paused : Bool) → Status N
  checked : Checked N → Status N

module _ (N : Floats) where
  abbrev pub value_or_zero : Option N.F → N.F
  value_or_zero none = N.lit 0
  value_or_zero (some x) = x

  abbrev pub parsed : Option String → N.F
  parsed none = N.lit 0
  parsed (some text) = value_or_zero (N.parse text)

  -- The peak that a check goes by.
  unfoldable pub raised : N.F → N.F → N.F
  raised hwm equity = if N.lt hwm equity then equity else hwm

  unfoldable pub drawdown : N.F → N.F → N.F
  drawdown hwm equity =
      if N.le hwm (N.lit 0) then N.lit 0 else N.mul (N.div (N.sub hwm equity) hwm) (N.lit 100)

abbrev pub is_paused_text : Option String → Bool
is_paused_text none = false
is_paused_text (some text) = str_eq text "paused"

module _ {R : RedisValues} {N : Floats} where
  unfoldable pub get_hwm : String → World R N → N.F
  get_hwm id w = parsed N (R.get (hwm_key id) w.db)

  unfoldable pub set_hwm : String → N.F → World R N → World R N
  set_hwm id x w = record w { db = R.set (hwm_key id) (N.show x) w.db }

  unfoldable pub is_paused : String → World R N → Bool
  is_paused id w = is_paused_text (R.get (pause_key id) w.db)

  unfoldable pub manual_deactivate : String → World R N → World R N
  manual_deactivate id w = record w { db = R.delete (pause_key id) w.db }

  unfoldable pub activate_pause : String → N.F → N.F → N.F → World R N → World R N
  activate_pause id hwm equity pct w = record w {
    db = R.set (pause_key id) "paused" w.db;
    published = w.published ++ (pause_activated id hwm equity pct ∷ []);
  }

  unfoldable pub deactivate_pause : String → N.F → N.F → N.F → World R N → World R N
  deactivate_pause id hwm equity pct w = record w {
    db = R.delete (pause_key id) w.db;
    published = w.published ++ (pause_deactivated id hwm equity pct ∷ []);
  }

  -- The part of `check` after the peak is stored.
  unfoldable pub decide : Config N → String → N.F → N.F → World R N → World R N × Bool
  decide c id hwm equity w =
      let pct = drawdown N hwm equity in
      let paused = is_paused id w in
      if not paused && N.le c.max_drawdown_pct pct
      then (activate_pause id hwm equity pct w, true)
      else if paused && N.lt pct c.recovery_pct
      then (deactivate_pause id hwm equity pct w, false)
      else (w, paused)

  unfoldable pub remember : String → N.F → World R N → World R N
  remember id equity w = if N.lt (get_hwm id w) equity then set_hwm id equity w else w

  unfoldable pub check : Config N → String → Option N.F → World R N → World R N × Status N
  check c id none w = (w, unavailable (is_paused id w))
  check c id (some equity) w =
      let hwm = raised N (get_hwm id w) equity in
      let (w', paused) = decide c id hwm equity (remember id equity w) in
      (
        w',
        checked (record {
          paused = paused;
          drawdown_pct = drawdown N hwm equity;
          hwm = hwm;
          current_equity = equity;
        }),
      )
