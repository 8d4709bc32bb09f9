-- ===== src/Trading/Lifecycle/Books.antt =====
-- What an entry and an exit leave with the broker and tell the rest of the system.
-- (trade_lifecycle_manager.py, `place_entry` and `execute_exit`)
use clartt_capital.Common.{
  ℕ, ◌≡◌, ◌≢◌, refl, sym, ap, not, ◌&&◌, Bool, true, false, Option, some, none, List, [], ◌∷◌, ◌++◌,
  String, Bool-cases, inl, inr, arith, if◌then◌else◌, append-nil, str_eq,
}
use clartt_capital.Floats.{Floats, IsLawful}
use clartt_capital.Trading.Models.{
  Signal, TradingAccount, TradeExecutionResult, TradeExecutionStatus,
}
use clartt_capital.Trading.Lifecycle.{
  Executor, World, Event, trade_entry, trade_exit, position_closed, opened_event, is_filled,
  attempts, attach_sl_tp, publish, publish_event, after_entry, place_entry, enrich, no_account,
  profit_loss, duration, parse_ts, created_of, after_exit, execute_exit,
}

unfilled : (t : TradeExecutionStatus) → t ≢ TradeExecutionStatus.filled → is_filled t ≡ false
unfilled TradeExecutionStatus.filled h = elim (h refl) [ ]
unfilled TradeExecutionStatus.rejected h = refl
unfilled TradeExecutionStatus.partial h = refl
unfilled TradeExecutionStatus.error h = refl

module _ {N : Floats} (X : Executor N) (publishing : Bool) (show_int : ℕ → String) where
  -- What the event publisher gets.
  abbrev pub if_publishing : Event N → List (Event N)
  if_publishing e = if publishing then e ∷ [] else []

  published-event :
      (e : Event N) (w : World X)
      → (publish_event X publishing show_int e w).published ≡ w.published ++ if_publishing e
  unfolding publish_event publish
  published-event e w = elim (Bool-cases publishing) [
    | inl h ↦ rw h refl
    | inr h ↦ rw h (sym (append-nil w.published))
  ]

  event_broker :
      (e : Event N) (w : World X) → (publish_event X publishing show_int e w).broker ≡ w.broker
  unfolding publish_event publish
  event_broker e w = elim (Bool-cases publishing) [ inl h ↦ rw h refl | inr h ↦ rw h refl ]

  -- `place_entry` returns what the executor returned. For a filled order the broker has got the
  -- attempts to attach the stop loss and the take profit, at most three, and then an entry and a
  -- PositionOpened event are published. Neither the result nor the events depend on whether an
  -- attempt succeeded. For an order that is not filled there is no further call and no event.
  pub place_entry_books :
      (s : Signal N) (a : TradingAccount N) (w : World X)
      → let (b, r) = X.execute s a w.broker in
        let (w', out) = place_entry X publishing show_int s a w in
        (out ≡ r)
        × (r.status ≡ TradeExecutionStatus.filled
            → (w'.broker ≡ (attempts X 3 r.order_id s.stop_loss s.take_profit a b).0)
              × (w'.published
                  ≡ (w.published ++ (trade_entry a r (some s) ∷ []))
                    ++ if_publishing (opened_event X publishing show_int r s a)))
        × (r.status ≢ TradeExecutionStatus.filled → (w'.broker ≡ b) × (w'.published ≡ w.published))
  unfolding place_entry after_entry attach_sl_tp publish
  place_entry_books s a w = (
    refl,
    (λ e. rw (e, after_entry) (event_broker _ _, published-event _ _)),
    (λ e. rw (unfilled _ e, after_entry) (refl, refl)),
  )

  after_exit_broker :
      (strptime : String → String → Option N.F) (id : ℕ) (reason : String) (s : Option (Signal N))
      (a : TradingAccount N) (r : TradeExecutionResult N) (w : World X)
      → (after_exit X publishing show_int strptime id reason a s r w).broker ≡ w.broker
  unfolding after_exit publish
  after_exit_broker strptime id reason s a r w = elim (Bool-cases (is_filled r.status)) [
    | inl e ↦ rw e (event_broker _ _)
    | inr e ↦ rw e refl
  ]

  after_exit_published :
      (strptime : String → String → Option N.F) (id : ℕ) (reason : String) (s : Option (Signal N))
      (a : TradingAccount N) (r : TradeExecutionResult N) (w : World X)
      → is_filled r.status ≡ true
      → (after_exit X publishing show_int strptime id reason a s r w).published
        ≡ (w.published
            ++ (trade_exit a r s (record {
              exit_reason = reason;
              exit_price = r.fill_price;
              profit_loss = profit_loss s r.fill_price;
            })
                ∷ []))
          ++ if_publishing (
              position_closed
                (show_int id)
                a.id
                r.fill_price
                (profit_loss s r.fill_price)
                reason
                (duration N strptime (created_of s) r.created_at))
  unfolding after_exit publish
  after_exit_published strptime id reason s a r w e = rw e (published-event _ _)

  -- `execute_exit` without an account answers ERROR and leaves the broker alone. With one it returns
  -- what the executor returned, with the id of the signal where the result had none. A filled close
  -- publishes an exit and a PositionClosed event that state the same profit or loss; any other close
  -- publishes nothing.
  pub execute_exit_books :
      (strptime : String → String → Option N.F) (id : ℕ) (reason : String) (s : Option (Signal N))
      (a : TradingAccount N) (w : World X)
      → let (b, closed) = X.close_position id a w.broker in
        let (w', r) = execute_exit X publishing show_int strptime id reason (some a) s w in
        let gain = profit_loss s r.fill_price in
        (execute_exit X publishing show_int strptime id reason none s w ≡ (w, no_account id s))
        × (r ≡ enrich s closed)
        × (w'.broker ≡ b)
        × (r.status ≡ TradeExecutionStatus.filled
            → w'.published
              ≡ (w.published
                  ++ (trade_exit a r s (record {
                    exit_reason = reason;
                    exit_price = r.fill_price;
                    profit_loss = gain;
                  })
                      ∷ []))
                ++ if_publishing (
                    position_closed
                      (show_int id)
                      a.id
                      r.fill_price
                      gain
                      reason
                      (duration N strptime (created_of s) r.created_at)))
        × (r.status ≢ TradeExecutionStatus.filled → w'.published ≡ w.published)
  unfolding execute_exit
  execute_exit_books strptime id reason s a w =
      let r = enrich s (X.close_position id a w.broker).1 in
      (
        refl,
        refl,
        after_exit_broker strptime id reason s a r _,
        (λ e. after_exit_published strptime id reason s a r _ (ap is_filled e)),
        (λ e. rw (unfilled _ e, after_exit) refl),
      )

module _ (N : Floats) (L : IsLawful N) where
  zero_le_zero : N.le (N.lit 0) (N.lit 0) ≡ true
  zero_le_zero = L.lit_mono 0 0 (ground arith)

  either :
      (b : Bool) (x y : N.F)
      → N.le (N.lit 0) x ≡ true
      → N.le (N.lit 0) y ≡ true
      → N.le (N.lit 0) (if b then x else y) ≡ true
  either true x y p q = p
  either false x y p q = q

  clamped : (x : N.F) → N.le (N.lit 0) (if N.lt (N.lit 0) x then x else N.lit 0) ≡ true
  clamped x = elim (Bool-cases (N.lt (N.lit 0) x)) [
    | inl h ↦ rw h (L.le_of_lt _ _ h)
    | inr h ↦ rw h zero_le_zero
  ]

  -- The duration of a position is never negative, whatever the two timestamps are.
  pub duration_not_negative :
      (strptime : String → String → Option N.F) (opened closed : String)
      → N.le (N.lit 0) (duration N strptime opened closed) ≡ true
  unfolding duration
  duration_not_negative strptime opened closed =
      let elapsed = N.sub (parse_ts N strptime closed) (parse_ts N strptime opened) in
      let whole = if N.lt (N.lit 0) elapsed then elapsed else N.lit 0 in
      let positive =
        N.lt (N.lit 0) (parse_ts N strptime opened)
        && N.lt (N.lit 0) (parse_ts N strptime closed) in
      either (not (str_eq opened "") && not (str_eq closed ""))
        (if positive then whole else N.lit 0) (N.lit 0)
        (either positive whole (N.lit 0) (clamped elapsed) zero_le_zero) zero_le_zero
