-- ===== src/Trading/Consumer.antt =====
-- packages/execution-engine/src/consumer/signal_consumer.py: `SignalConsumer`, over the commands of a
-- Redis stream for one group and one consumer, with COUNT 1. A read with BLOCK 0 waits for a message
-- without a limit, so a call may never end. An acknowledgement is recorded in the order in which it
-- is sent.
use clartt_capital.Common.{
  ℕ, ◌≡◌, ◌⊎◌, inl, inr, refl, Option, none, some, List, [], ◌∷◌, ◌++◌, String, str_eq,
  if◌then◌else◌,
}
use clartt_capital.Floats.{Floats}
use clartt_capital.Breaker.{Outcome, returned, raised}
use clartt_capital.Trading.Models.{Signal}

-- The reply to XGROUP CREATE: done, the group exists (BUSYGROUP), or another error.
pub data Group : Type 0 where
  created busy : Group
  refused : String → Group

-- A call that ends with a result, or that waits for ever.
pub data Call {ℓ} (A : Type ℓ) : Type ℓ where
  ends : A → Call A
  never : Call A

pub Call-cases {ℓ} : {A : Type ℓ} (c : Call A) → (c ≡ never) ⊎ ((a : A) × (c ≡ ends a))
Call-cases never = inl refl
Call-cases (ends a) = inr (a, refl)

-- XREADGROUP, with the time of its BLOCK option, delivers a message as its id and its field `data`; `parse` is the check of
-- pydantic.
pub record Stream (N : Floats) : Type 1 where
  pub Db : Type 0
  pub create_group : Db → Db × Group
  pub read_group : (block_ms : ℕ) → Db → Db × Call (Outcome (Option (String × Option String)))
  pub parse : String → Option (Signal N)

-- `fields.get("data")`, where an empty text counts as none.
abbrev pub field_of : Option String → Option String
field_of none = none
field_of (some t) = if str_eq t "" then none else some t

pub record Inbox {N : Floats} (R : Stream N) : Type 0 where
  pub db : R.Db
  pub acknowledged : List String

module _ {N : Floats} (R : Stream N) where
  unfoldable pub acknowledge : String → Inbox R → Inbox R
  acknowledge id w = record w { acknowledged = w.acknowledged ++ (id ∷ []) }

  unfoldable pub signal_in : Option String → Option (Signal N)
  signal_in raw = elim (field_of raw) [ none ↦ none | some text ↦ R.parse text ]

  -- A message without a signal is acknowledged and gives none, as if there were no message.
  unfoldable pub delivered :
      Option (String × Option String) → Inbox R → Inbox R × Option (String × Signal N)
  delivered none w = (w, none)
  delivered (some (id, raw)) w = elim (signal_in raw) [
    | none ↦ (acknowledge id w, none)
    | some s ↦ (w, some (id, s))
  ]

  unfoldable pub read_next :
      (block_ms : ℕ) → Inbox R → Inbox R × Call (Outcome (Option (String × Signal N)))
  read_next block_ms w =
      let (d, reply) = R.read_group block_ms w.db in
      let w' : Inbox R = record w { db = d } in
      elim reply [
        | never ↦ (w', never)
        | ends (raised e) ↦ (w', ends (raised e))
        | ends (returned m) ↦ let (w'', result) = delivered m w' in (w'', ends (returned result))
      ]

  unfoldable pub consume :
      (block_ms : ℕ) → Inbox R → Inbox R × Call (Outcome (Option (String × Signal N)))
  consume block_ms w =
      let (d, group) = R.create_group w.db in
      let w' : Inbox R = record w { db = d } in
      elim group [
        | refused e ↦ (w', ends (raised e))
        | created ↦ read_next block_ms w'
        | busy ↦ read_next block_ms w'
      ]
