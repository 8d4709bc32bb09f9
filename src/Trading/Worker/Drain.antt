-- ===== src/Trading/Worker/Drain.antt =====
-- Draining the stale signals after a kill switch. (account_worker.py, `_drain_pending_signals`;
-- signal_consumer.py, `consume`)
use clartt_capital.Common.{
  ℕ, zero, suc, ◌+◌, ◌<◌, ◌≡◌, refl, sym, ap, ◌∙◌, Option, none, some, List, [], ◌∷◌, ◌++◌, map,
  length, String, ◌⊎◌, inl, inr, All, append-nil, append_assoc, arith,
}
use clartt_capital.Floats.{Floats}
use clartt_capital.Breaker.{Outcome, returned}
use clartt_capital.Trading.Models.{Signal}
use clartt_capital.Trading.Consumer.{
  Stream, Inbox, Call, ends, never, created, busy, signal_in, acknowledge, delivered, read_next,
  consume,
}
use clartt_capital.Trading.Worker.Cycle.{drained_by, drain}

-- A stream whose group can be created or exists, and that delivers to the group in their order, each
-- once, the messages that are there or will arrive. Where none is left and none will arrive, a read
-- with BLOCK 0 waits for ever.
pub record Delivers {N : Floats} (R : Stream N) (pending : R.Db → List (String × Option String))
    : Type 0 where
  pub grouped : (d : R.Db) → ((R.create_group d).1 ≡ created) ⊎ ((R.create_group d).1 ≡ busy)
  pub kept : (d : R.Db) → pending (R.create_group d).0 ≡ pending d
  pub nothing :
      (d : R.Db)
      → pending d ≡ []
      → ((R.read_group 0 d).1 ≡ never) × (pending (R.read_group 0 d).0 ≡ [])
  pub next :
      (d : R.Db) (m : String × Option String) (ms : List (String × Option String))
      → pending d ≡ m ∷ ms
      → ((R.read_group 0 d).1 ≡ ends (returned (some m))) × (pending (R.read_group 0 d).0 ≡ ms)

module _ {N : Floats} (R : Stream N) (pending : R.Db → List (String × Option String))
    (l : Delivers R pending) where
  abbrev opened : Inbox R → Inbox R
  opened w = record w { db = (R.create_group w.db).0 }

  consume-read_next : (w : Inbox R) → consume R 0 w ≡ read_next R 0 (opened w)
  unfolding consume
  consume-read_next w = elim (l.grouped w.db) [ inl e ↦ rw (e, consume) | inr e ↦ rw (e, consume) ]

  -- The database after a message has been read.
  abbrev read : Inbox R → Inbox R
  read w = record w { db = (R.read_group 0 (opened w).db).0 }

  consume-never :
      (w : Inbox R) → (R.read_group 0 (opened w).db).1 ≡ never → consume R 0 w ≡ (read w, never)
  unfolding read_next
  consume-never w e = consume-read_next w ∙ rw (e, read_next)

  consume-deliver :
      (w : Inbox R) (m : Option (String × Option String))
      → (R.read_group 0 (opened w).db).1 ≡ ends (returned m)
      → consume R 0 w ≡ (let (w', r) = delivered R m (read w) in (w', ends (returned r)))
  unfolding read_next
  consume-deliver w m e = consume-read_next w ∙ rw (e, read_next)

  consume-without :
      (w : Inbox R) (m : String × Option String)
      → (R.read_group 0 (opened w).db).1 ≡ ends (returned (some m))
      → signal_in R m.1 ≡ none
      → consume R 0 w ≡ (acknowledge R m.0 (read w), ends (returned none))
  unfolding delivered
  consume-without w m e h = consume-deliver w (some m) e ∙ rw (h, delivered)

  consume-with :
      (w : Inbox R) (m : String × Option String) (s : Signal N)
      → (R.read_group 0 (opened w).db).1 ≡ ends (returned (some m))
      → signal_in R m.1 ≡ some s
      → consume R 0 w ≡ (read w, ends (returned (some (m.0, s))))
  unfolding delivered
  consume-with w m s e h = consume-deliver w (some m) e ∙ rw (h, delivered)

  -- A message with a signal; the first message of the rest, if any, has none.
  abbrev pub HasSignal : String × Option String → Type 0
  HasSignal m = (s : Signal N) × (signal_in R m.1 ≡ some s)

  abbrev pub Stops : List (String × Option String) → Type 0
  Stops [] = Unit
  Stops (bad ∷ stale) = signal_in R bad.1 ≡ none

  abbrev pub left_over : List (String × Option String) → List (String × Option String)
  left_over [] = []
  left_over (bad ∷ stale) = stale

  abbrev pub refused_ids : List (String × Option String) → List String
  refused_ids [] = []
  refused_ids (bad ∷ stale) = bad.0 ∷ []

  abbrev pub id_of : String × Option String → String
  id_of m = m.0

  -- The call ends, with the count, at a message without a signal.
  abbrev pub ended : List (String × Option String) → ℕ → Call (Outcome ℕ)
  ended [] n = never
  ended (bad ∷ stale) n = ends (returned n)

  -- Draining acknowledges the messages of the stream in their order, those that arrive meanwhile
  -- included, up to the first without a signal, that one too, and ends there with the number before
  -- it: what comes behind it stays. If every message has a signal it acknowledges all of them and
  -- never ends. It needs a stream that delivers in order and waits for ever with BLOCK 0, and fuel
  -- for the messages with a signal and one more.
  pub drain_until_malformed :
      (good rest : List (String × Option String)) (fuel n : ℕ) (w : Inbox R)
      → pending w.db ≡ good ++ rest
      → All HasSignal good
      → Stops rest
      → length good < fuel
      → let (w', out) = drain R fuel n w in
        (pending w'.db ≡ left_over rest)
        × (w'.acknowledged ≡ w.acknowledged ++ map id_of good ++ refused_ids rest)
        × (out ≡ ended rest (n + length good))
  unfolding drain drained_by acknowledge
  drain_until_malformed good rest zero n w p g s f = absurd (omega arith)
  drain_until_malformed [] [] (suc fuel) n w p g s f =
      let (e, q) = l.nothing (opened w).db (l.kept w.db ∙ p) in
      rw (consume-never w e, drain) (q, sym (append-nil _) ∙ sym (append-nil _), refl)
  drain_until_malformed [] (bad ∷ stale) (suc fuel) n w p g s f =
      let (e, q) = l.next (opened w).db bad stale (l.kept w.db ∙ p) in
      rw (consume-without w bad e s, drain)
        (
          q,
          ap (λ ids. ids ++ bad.0 ∷ []) (sym (append-nil w.acknowledged)),
          ap (λ k. ends (returned k)) (omega arith),
        )
  drain_until_malformed (m ∷ good) rest (suc fuel) n w p g s f =
      let (e, q) = l.next (opened w).db m (good ++ rest) (l.kept w.db ∙ p) in
      let w1 = acknowledge R m.0 (read w) in
      let (left, acked, out) =
        drain_until_malformed good rest fuel (n + 1) w1 q g.1 s (omega arith) in
      rw (consume-with w m g.0.0 e g.0.1, drain)
        (
          left,
          acked
              ∙ ap (λ ids. ids ++ refused_ids rest)
                  (append_assoc w.acknowledged (m.0 ∷ []) (map id_of good)),
          out ∙ ap (ended rest) (omega arith),
        )
