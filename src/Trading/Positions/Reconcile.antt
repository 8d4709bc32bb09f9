-- ===== src/Trading/Positions/Reconcile.antt =====
-- `_reconcile_external_closes` and the whole of `_check_all_positions`.
use clartt_capital.Common.{
  ℕ, Bool, true, false, some, none, List, [], ◌∷◌, ◌++◌, str_eq, if◌then◌else◌,
}
use clartt_capital.Floats.{Floats}
use clartt_capital.Trading.Models.{TradingAccount}
use clartt_capital.Trading.Positions.Models.{TrackedPosition, ClosedContract}
use clartt_capital.Trading.Positions.Broker.{
  Services, World, broker_sl_tp, publish, client_for_account, closed_details,
}
use clartt_capital.Trading.Positions.Cycle.{Monitor, evaluate_all, holds, pop_all}

-- What the reconciliation has done so far: the world, the ids to remove, and whether
-- an exception has ended it.
pub record Progress {N : Floats} (X : Services N) : Type 0 where
  pub world : World X
  pub closing : List ℕ
  pub raised : Bool

module _ {N : Floats} where
  -- The positions of one account, under the account of the first of them.
  unfoldable pub add_to_group :
      TrackedPosition N
      → List (TradingAccount N × List (TrackedPosition N))
      → List (TradingAccount N × List (TrackedPosition N))
  add_to_group p [] = (p.account, p ∷ []) ∷ []
  add_to_group p ((a, ps) ∷ groups) =
      if str_eq a.id p.account.id
      then (a, ps ++ (p ∷ [])) ∷ groups
      else (a, ps) ∷ add_to_group p groups

  -- `by_account`, without the positions that are closing already.
  unfoldable pub by_account :
      List ℕ
      → List (TradingAccount N × List (TrackedPosition N))
      → List (ℕ × TrackedPosition N)
      → List (TradingAccount N × List (TrackedPosition N))
  unfolding holds add_to_group
  by_account closing groups [] = groups
  by_account closing groups ((_, p) ∷ ps) =
      by_account closing (if holds p.position_id closing then groups else add_to_group p groups) ps

module _ {N : Floats} (X : Services N) where
  -- Writing down the exit of a position of which the broker has the details.
  unfoldable pub settle : TrackedPosition N → ClosedContract N → Progress X → Progress X
  unfolding publish
  settle p d g =
      let w = g.world in
      let (s, answer) =
        X.record_exit d.broker_order_id d.exit_price d.profit_loss d.closed_at w.state in
      let w' : World X = record w { state = s } in
      elim answer [
        | none ↦ record g { world = w'; raised = true }
        | some false ↦ record g { world = w' }
        | some true ↦ record g {
          world = publish X (broker_sl_tp p d) w';
          closing = g.closing ++ (p.position_id ∷ []);
        }
      ]

  -- A position that the broker does not list.
  unfoldable pub vanished : X.Client → TrackedPosition N → Progress X → Progress X
  vanished c p g =
      let w = g.world in
      let (s, details) = closed_details X (some c) p.position_id w.state in
      let g' : Progress X = record g { world = record w { state = s } } in
      elim details [ none ↦ g' | some d ↦ settle p d g' ]

  unfoldable pub reconcile_position :
      X.Client → (open_ids : List ℕ) → TrackedPosition N → Progress X → Progress X
  reconcile_position c open_ids p g =
      if g.raised then g else if holds p.position_id open_ids then g else vanished c p g

  unfoldable pub reconcile_positions :
      X.Client → (open_ids : List ℕ) → List (TrackedPosition N) → Progress X → Progress X
  reconcile_positions c open_ids [] g = g
  reconcile_positions c open_ids (p ∷ ps) g =
      reconcile_positions c open_ids ps (reconcile_position c open_ids p g)

  -- Accounts without a client, and those whose positions cannot be fetched, are passed over.
  unfoldable pub reconcile_account :
      TradingAccount N → List (TrackedPosition N) → Progress X → Progress X
  unfolding client_for_account reconcile_positions
  reconcile_account a ps g =
      let w = g.world in
      let (s, client) = client_for_account X a w.state in
      elim client [
        | none ↦ record g { world = record w { state = s } }
        | some c ↦
            let (s', ids) = X.get_positions c s in
            let g' : Progress X = record g { world = record w { state = s' } } in
            elim ids [ none ↦ g' | some open_ids ↦ reconcile_positions c open_ids ps g' ]
      ]

  unfoldable pub reconcile_accounts :
      List (TradingAccount N × List (TrackedPosition N)) → Progress X → Progress X
  unfolding reconcile_account
  reconcile_accounts [] g = g
  reconcile_accounts ((a, ps) ∷ groups) g =
      reconcile_accounts groups (if g.raised then g else reconcile_account a ps g)

  unfoldable pub reconcile_external_closes :
      List (ℕ × TrackedPosition N) → List ℕ → World X → Progress X
  unfolding by_account reconcile_accounts
  reconcile_external_closes positions closing w =
      reconcile_accounts (by_account closing [] positions)
        (record { world = w; closing = closing; raised = false })

  -- The positions are those of the dictionary, as the exit rules have left them. An exception in the
  -- reconciliation is caught, and what it had collected is removed.
  unfoldable pub check_all_positions : Monitor N → World X → Monitor N × World X
  unfolding evaluate_all reconcile_external_closes pop_all
  check_all_positions m w =
      let ((m', closing), w') = evaluate_all X m.positions m w in
      let g =
        if X.has_persister
        then reconcile_external_closes m'.positions closing w'
        else record { world = w'; closing = closing; raised = false } in
      (record m' { positions = pop_all g.closing m'.positions }, g.world)
