-- ===== src/Trading/Positions/Cycle.antt =====
-- The monitor's dictionary of positions: tracking and untracking, the cache of instrument
-- specifications, and one cycle over all positions, with the reconciliation of those that the broker
-- has closed. The cycle works on the positions as they were at its start, and nothing else writes
-- them meanwhile; the source's lock is held only around single accesses.
use clartt_capital.Common.{
  ℕ, ◌+◌, Bool, true, false, Option, some, none, List, [], ◌∷◌, String, leb, ◌==◌, str_eq,
  if◌then◌else◌,
}
use clartt_capital.Floats.{Floats}
use clartt_capital.Trading.Models.{Signal, TradingAccount}
use clartt_capital.Trading.ExitRules.{ExitRules, InstrumentSpecs, from_dict, has_any_enabled}
use clartt_capital.Trading.Positions.Models.{TrackedPosition, current_price, estimate_entry_atr}
use clartt_capital.Trading.Positions.Broker.{Services, World}
use clartt_capital.Trading.Positions.Rules.{apply_rules}

abbrev pub specs_cache_ttl : ℕ
specs_cache_ttl = 300000000

-- Keys are kept in the order of their first insertion.
pub record Monitor (N : Floats) : Type 0 where
  pub positions : List (ℕ × TrackedPosition N)
  pub specs_cache : List (String × InstrumentSpecs N)
  pub specs_cache_time : ℕ

module _ {ℓ} {V : Type ℓ} where
  unfoldable pub find : ℕ → List (ℕ × V) → Option V
  find k [] = none
  find k ((j, v) ∷ m) = if j == k then some v else find k m

  unfoldable pub put : ℕ → V → List (ℕ × V) → List (ℕ × V)
  put k v [] = (k, v) ∷ []
  put k v ((j, u) ∷ m) = if j == k then (k, v) ∷ m else (j, u) ∷ put k v m

  unfoldable pub pop : ℕ → List (ℕ × V) → List (ℕ × V)
  pop k [] = []
  pop k ((j, u) ∷ m) = if j == k then m else (j, u) ∷ pop k m

  unfoldable pub pop_all : List ℕ → List (ℕ × V) → List (ℕ × V)
  unfolding pop
  pop_all [] m = m
  pop_all (k ∷ ks) m = pop_all ks (pop k m)

  unfoldable pub named : String → List (String × V) → Option V
  named k [] = none
  named k ((j, v) ∷ m) = if str_eq j k then some v else named k m

  unfoldable pub assign : String → V → List (String × V) → List (String × V)
  assign k v [] = (k, v) ∷ []
  assign k v ((j, u) ∷ m) = if str_eq j k then (k, v) ∷ m else (j, u) ∷ assign k v m

unfoldable pub holds : ℕ → List ℕ → Bool
holds k [] = false
holds k (j ∷ js) = if j == k then true else holds k js

module _ (N : Floats) (model_validate : String → Option (ExitRules N)) where
  unfoldable pub tracked :
      (partial_close_done : Bool)
      → ℕ
      → Signal N
      → TradingAccount N
      → N.F
      → ℕ
      → ExitRules N
      → TrackedPosition N
  unfolding estimate_entry_atr
  tracked done id s a entry time rules = record {
    position_id = id;
    signal = s;
    account = a;
    exit_rules = rules;
    entry_time = time;
    entry_price = entry;
    direction = s.direction;
    instrument = s.instrument;
    original_size = s.position_size;
    current_size = s.position_size;
    current_sl = s.stop_loss;
    break_even_applied = false;
    trailing_activated = false;
    trailing_sl = N.lit 0;
    partial_close_done = done;
    atr_trailing_activated = false;
    entry_atr = estimate_entry_atr N s entry;
  }

  -- `none` where the rules do not parse, which raises.
  unfoldable pub track_position :
      ℕ → Signal N → TradingAccount N → N.F → (now : ℕ) → Monitor N → Option (Monitor N)
  unfolding tracked from_dict has_any_enabled put
  track_position id s a fill now m = elim (from_dict N model_validate s.exit_rules) [
    | none ↦ none
    | some rules ↦
        if has_any_enabled N rules
        then some
            (record m { positions = put id (tracked false id s a fill now rules) m.positions })
        else some m
  ]

  unfoldable pub rehydrate_position :
      ℕ → Signal N → TradingAccount N → N.F → (entry_time : ℕ) → Monitor N → Option (Monitor N)
  unfolding tracked from_dict has_any_enabled put find
  rehydrate_position id s a entry time m = elim (from_dict N model_validate s.exit_rules) [
    | none ↦ none
    | some rules ↦
        if has_any_enabled N rules
        then elim (find id m.positions) [
          | some _ ↦ some m
          | none ↦
              some
                (record m { positions = put id (tracked true id s a entry time rules) m.positions })
        ]
        else some m
  ]

module _ {N : Floats} where
  unfoldable pub untrack_position : ℕ → Monitor N → Monitor N
  unfolding pop
  untrack_position id m = record m { positions = pop id m.positions }

  unfoldable pub into_cache :
      List (String × InstrumentSpecs N)
      → List (InstrumentSpecs N)
      → List (String × InstrumentSpecs N)
  unfolding assign
  into_cache cache [] = cache
  into_cache cache (x ∷ xs) = into_cache (assign x.symbol x cache) xs

module _ {N : Floats} (X : Services N) where
  unfoldable pub refresh_specs : Monitor N → X.State → Monitor N × X.State
  unfolding into_cache
  refresh_specs m s =
      let (s', raw) = X.fetch_specs s in
      let (s'', now) = X.now s' in
      elim raw [
        | none ↦ (m, s')
        | some specs ↦ (record m { specs_cache = into_cache [] specs; specs_cache_time = now }, s'')
      ]

  unfoldable pub get_specs :
      String → Monitor N → X.State → (Monitor N × X.State) × Option (InstrumentSpecs N)
  unfolding refresh_specs named
  get_specs instrument m s =
      let (s', now) = X.now s in
      let (m', s'') =
        if leb (m.specs_cache_time + specs_cache_ttl) now then refresh_specs m s' else (m, s') in
      ((m', s''), named instrument m'.specs_cache)

  -- What the broker's price makes of a position.
  unfoldable pub judge :
      InstrumentSpecs N → N.F → TrackedPosition N → World X → TrackedPosition N × World X × Bool
  unfolding apply_rules
  judge specs price p w =
      let (s, now) = X.now w.state in
      if N.le price (N.lit 0)
      then (p, w, false)
      else apply_rules X specs price now p (record w { state = s })

  -- Without specifications, or when the broker raises or has no tick, the position is left alone.
  unfoldable pub evaluate_position :
      TrackedPosition N → Monitor N → World X → (Monitor N × TrackedPosition N) × World X × Bool
  unfolding get_specs judge current_price
  evaluate_position p m w =
      let ((m', s), specs) = get_specs p.instrument m w.state in
      let (s', tick) = X.symbol_info_tick p.instrument s in
      elim specs [
        | none ↦ ((m', p), record w { state = s }, false)
        | some sp ↦ elim tick [
          | none ↦ ((m', p), record w { state = s' }, false)
          | some none ↦ ((m', p), record w { state = s' }, false)
          | some (some t) ↦
              let (p', w', closed) =
                judge sp (current_price N p.direction t) p (record w { state = s' }) in
              ((m', p'), w', closed)
        ]
      ]

  -- The loop over the positions: each is changed in place, and those that were closed are collected.
  unfoldable pub evaluate_all :
      List (ℕ × TrackedPosition N) → Monitor N → World X → (Monitor N × List ℕ) × World X
  unfolding evaluate_position put
  evaluate_all [] m w = ((m, []), w)
  evaluate_all ((k, p) ∷ ps) m w =
      let ((m1, p'), w1, closed) = evaluate_position p m w in
      let ((m2, closing), w2) =
        evaluate_all ps (record m1 { positions = put k p' m1.positions }) w1 in
      ((m2, (if closed then p.position_id ∷ closing else closing)), w2)
