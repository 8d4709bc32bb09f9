-- ===== src/Trading/Worker/Accepts.antt =====
-- Which strategies a worker accepts, from what it was told. (account_worker.py,
-- `_load_strategy_ids`, `_strategy_listener_loop`)
use clartt_capital.Common.{
  ◌≡◌, refl, ap, ◌∙◌, Bool, true, false, ◌||◌, Option, none, some, List, [], ◌∷◌, String, str_eq,
  arith, if_both, if◌then◌else◌,
}
use clartt_capital.Floats.{Floats}
use clartt_capital.Trading.Models.{Signal}
use clartt_capital.Trading.Worker.Models.{Worker}
use clartt_capital.Trading.Worker.Cycle.{assigned, member, is_empty}
use clartt_capital.Trading.Worker.Setup.{
  Reply, unreachable, absent, unparsed, other, held, load_strategy_ids, Update, halted, lost, quiet,
  garbled, assignment, or_empty, strategy_listener_turn, strategy_listener_loop,
}

-- The ids of the last assignment of the account that comes before the listener ends, or those from
-- before.
abbrev pub latest : String → List Update → List String → List String
latest id [] ids = ids
latest id (halted ∷ us) ids = ids
latest id (lost ∷ us) ids = ids
latest id (quiet ∷ us) ids = latest id us ids
latest id (garbled ∷ us) ids = latest id us ids
latest id (assignment none _ ∷ us) ids = latest id us ids
latest id (assignment (some j) new ∷ us) ids =
    latest id us (if str_eq j id then or_empty new else ids)

-- Whether what Redis answered is a list.
abbrev pub was_read : Reply (List String) → Bool
was_read (held _) = true
was_read _ = false

unread : (reply : Reply (List String)) → was_read reply ≡ false → load_strategy_ids reply ≡ []
unfolding load_strategy_ids
unread unreachable h = refl
unread absent h = refl
unread unparsed h = refl
unread other h = refl
unread (held ids) h = ground arith

module _ {N : Floats} where
  turn-assigned :
      (j : String) (ids : Option (List String)) (k : Worker N)
      → (strategy_listener_turn (assignment (some j) ids) k).assigned_strategy_ids
        ≡ (if str_eq j k.account.id then or_empty ids else k.assigned_strategy_ids)
  unfolding strategy_listener_turn
  turn-assigned j ids k = ground arith

  turn-same :
      (j : String) (ids : Option (List String)) (k : Worker N)
      → (strategy_listener_turn (assignment (some j) ids) k).account ≡ k.account
  unfolding strategy_listener_turn
  turn-same j ids k =
      if_both (λ (c : Worker N). c.account ≡ k.account) (str_eq j k.account.id) _ _ refl refl

  loop_latest :
      (us : List Update) (k : Worker N)
      → ((strategy_listener_loop us k).assigned_strategy_ids
          ≡ latest k.account.id us k.assigned_strategy_ids)
        × ((strategy_listener_loop us k).account ≡ k.account)
  unfolding strategy_listener_loop strategy_listener_turn
  loop_latest [] k = (refl, refl)
  loop_latest (halted ∷ us) k = (refl, refl)
  loop_latest (lost ∷ us) k = (refl, refl)
  loop_latest (quiet ∷ us) k = loop_latest us k
  loop_latest (garbled ∷ us) k = loop_latest us k
  loop_latest (assignment none ids ∷ us) k = loop_latest us k
  loop_latest (assignment (some j) ids ∷ us) k =
      let k' = strategy_listener_turn (assignment (some j) ids) k in
      let (e, a) = loop_latest us k' in
      (
        e
            ∙ ap (λ i. latest i us k'.assigned_strategy_ids) (ap (λ a. a.id) (turn-same j ids k))
            ∙ ap (latest k.account.id us) (turn-assigned j ids k),
        a ∙ turn-same j ids k,
      )

  accepts_among :
      (k : Worker N) (s : Signal N)
      → assigned k s
        ≡ (is_empty k.assigned_strategy_ids || member s.strategy_id k.assigned_strategy_ids)
  unfolding assigned
  accepts_among k s = ground arith

  -- A worker whose strategies could not be read when it was made accepts every signal until a message
  -- assigns strategies to its account; from then on it accepts the signals of the last assignment
  -- that it was sent before its listener ended, by the stop event or by a failing connection, and
  -- every signal when that one is empty. No message after the end of the listener changes what it
  -- accepts.
  pub accepts_latest :
      (reply : Reply (List String)) (us : List Update) (k : Worker N) (s : Signal N)
      → was_read reply ≡ false
      → k.assigned_strategy_ids ≡ load_strategy_ids reply
      → let ids = latest k.account.id us [] in
        assigned (strategy_listener_loop us k) s ≡ (is_empty ids || member s.strategy_id ids)
  accepts_latest reply us k s f e =
      let nothing = unread reply f in
      let ids = (loop_latest us k).0 ∙ ap (latest k.account.id us) (e ∙ nothing) in
      accepts_among (strategy_listener_loop us k) s
      ∙ ap (λ l. is_empty l || member s.strategy_id l) ids
