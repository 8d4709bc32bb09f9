-- ===== src/Trading/ExitRules.antt =====
-- packages/execution-engine/src/models: exit_rules.py and instrument_specs.py. Pydantic's check of
-- the dictionary is an argument; `none` is its ValidationError. Ages and periods are numbers, prices
-- and multiples are floats.
use clartt_capital.Common.{
  ℕ, Bool, false, ◌||◌, ◌&&◌, String, Option, some, none, str_eq, if◌then◌else◌,
}
use clartt_capital.Floats.{Floats}

pub record TrailingStopConfig (N : Floats) : Type 0 where
  pub enabled : Bool
  pub activation_pips : N.F
  pub trail_distance_pips : N.F

pub record BreakEvenConfig (N : Floats) : Type 0 where
  pub enabled : Bool
  pub activation_pips : N.F
  pub buffer_pips : N.F

pub record TimeExitConfig : Type 0 where
  pub enabled : Bool
  pub max_duration_minutes : ℕ

pub record PartialCloseConfig (N : Floats) : Type 0 where
  pub enabled : Bool
  pub trigger_pips : N.F
  pub close_percent : N.F

pub record AtrTrailingStopConfig (N : Floats) : Type 0 where
  pub enabled : Bool
  pub activation_atr_mult : N.F
  pub trail_atr_mult : N.F

pub record StructuralTrailingStopConfig (N : Floats) : Type 0 where
  pub enabled : Bool
  pub fractal_n : ℕ
  pub buffer_atr : N.F
  pub min_swing_age_bars : ℕ
  pub activation_atr_mult : N.F
  pub atr_period : ℕ
  pub only_during_aligned_phase : Bool
  pub trail_resample_bars : ℕ

pub record ExitRules (N : Floats) : Type 0 where
  pub trailing_stop : TrailingStopConfig N
  pub break_even : BreakEvenConfig N
  pub time_exit : TimeExitConfig
  pub partial_close : PartialCloseConfig N
  pub atr_trailing_stop : AtrTrailingStopConfig N
  pub structural_trailing_stop : StructuralTrailingStopConfig N

-- `cls()`: every rule off, with the default values of its fields.
abbrev pub no_rules : (N : Floats) → ExitRules N
no_rules N = record {
  trailing_stop = record {
    enabled = false;
    activation_pips = N.lit 20;
    trail_distance_pips = N.lit 10;
  };
  break_even = record { enabled = false; activation_pips = N.lit 15; buffer_pips = N.lit 2 };
  time_exit = record { enabled = false; max_duration_minutes = 240 };
  partial_close = record { enabled = false; trigger_pips = N.lit 30; close_percent = N.lit 50 };
  atr_trailing_stop = record {
    enabled = false;
    activation_atr_mult = N.div (N.lit 3) (N.lit 2);
    trail_atr_mult = N.lit 1;
  };
  structural_trailing_stop = record {
    enabled = false;
    fractal_n = 2;
    buffer_atr = N.div (N.lit 1) (N.lit 2);
    min_swing_age_bars = 3;
    activation_atr_mult = N.lit 0;
    atr_period = 14;
    only_during_aligned_phase = false;
    trail_resample_bars = 1;
  };
}

-- An empty dictionary counts as none.
unfoldable pub from_dict :
    (N : Floats) → (String → Option (ExitRules N)) → Option String → Option (ExitRules N)
from_dict N model_validate none = some (no_rules N)
from_dict N model_validate (some text) =
    if str_eq text "{}" then some (no_rules N) else model_validate text

unfoldable pub has_any_enabled : (N : Floats) → ExitRules N → Bool
has_any_enabled N r =
    r.trailing_stop.enabled || r.break_even.enabled || r.time_exit.enabled
    || r.partial_close.enabled || r.atr_trailing_stop.enabled || r.structural_trailing_stop.enabled

pub record InstrumentSpecs (N : Floats) : Type 0 where
  pub symbol : String
  pub pip_size : N.F
  pub pip_value : N.F
  pub contract_size : N.F
  pub min_lot : N.F
  pub lot_step : N.F
  pub leverage : ℕ

module _ (N : Floats) where
  -- `x == 0`, which is true of both zeros and false of NaN.
  abbrev pub is_zero : N.F → Bool
  is_zero x = N.le x (N.lit 0) && N.le (N.lit 0) x

  unfoldable pub price_to_pips : InstrumentSpecs N → N.F → N.F
  price_to_pips s distance =
      if is_zero s.pip_size then N.lit 0 else N.div (N.abs distance) s.pip_size

  unfoldable pub pips_to_price : InstrumentSpecs N → N.F → N.F
  pips_to_price s pips = N.mul pips s.pip_size
