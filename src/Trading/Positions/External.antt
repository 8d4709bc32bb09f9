-- ===== src/Trading/Positions/External.antt =====
-- Positions that the broker has closed. (position_monitor.py, `_reconcile_external_closes`)
use clartt_capital.Common.{
  if◌then◌else◌, ℕ, ◌≡◌, refl, ◌∙◌, ap, sym, ◌⊎◌, inl, inr, Bool, true, false, some, List, [], ◌∷◌,
  ◌++◌, map, All, Bool-cases, Option-cases, append-nil, append_assoc, All-append, arith,
}
use mathlib.Core.List.{map-append}
use clartt_capital.Floats.{Floats}
use clartt_capital.Trading.Positions.Models.{TrackedPosition, ClosedContract}
use clartt_capital.Trading.Positions.Broker.{Services, Event, broker_sl_tp, closed_details}
use clartt_capital.Trading.Positions.Cycle.{holds}
use clartt_capital.Trading.Positions.Reconcile.{
  Progress, settle, vanished, reconcile_position, reconcile_positions,
}

module _ {N : Floats} where
  abbrev pub id_of : TrackedPosition N × ClosedContract N → ℕ
  id_of (p, d) = p.position_id

  abbrev pub event_of : TrackedPosition N × ClosedContract N → Event N
  event_of (p, d) = broker_sl_tp p d

module _ {N : Floats} (X : Services N) where
  -- From one state of the reconciliation to another these positions were found closed: their ids are
  -- queued for removal and their exits are published, in the same order.
  pub record Closes (g g' : Progress X) (closed : List (TrackedPosition N × ClosedContract N))
      : Type 0 where
    pub queued : g'.closing ≡ g.closing ++ map id_of closed
    pub published : g'.world.published ≡ g.world.published ++ map event_of closed

  Closes-refl :
      (g g' : Progress X)
      → g'.closing ≡ g.closing
      → g'.world.published ≡ g.world.published
      → Closes g g' []
  Closes-refl g g' h k = record {
    queued = h ∙ sym (append-nil g.closing);
    published = k ∙ sym (append-nil g.world.published);
  }

  Closes-trans :
      (g1 g2 g3 : Progress X) (xs ys : List (TrackedPosition N × ClosedContract N))
      → Closes g1 g2 xs
      → Closes g2 g3 ys
      → Closes g1 g3 (xs ++ ys)
  Closes-trans g1 g2 g3 xs ys h k = record {
    queued =
        k.queued
        ∙ ap (λ l. l ++ map id_of ys) h.queued
        ∙ append_assoc g1.closing (map id_of xs) (map id_of ys)
        ∙ ap (λ l. g1.closing ++ l) (sym (map-append id_of xs ys));
    published =
        k.published
        ∙ ap (λ l. l ++ map event_of ys) h.published
        ∙ append_assoc g1.world.published (map event_of xs) (map event_of ys)
        ∙ ap (λ l. g1.world.published ++ l) (sym (map-append event_of xs ys));
  }

  -- The world has moved on before the position is settled.
  settled :
      (g g1 : Progress X) (p : TrackedPosition N) (d : ClosedContract N)
      → g1.closing ≡ g.closing
      → g1.world.published ≡ g.world.published
      → Closes g1 (settle X p d g1) [] ⊎ Closes g1 (settle X p d g1) ((p, d) ∷ [])
      → Closes g (settle X p d g1) []
        ⊎ ((e : ClosedContract N) × Closes g (settle X p d g1) ((p, e) ∷ []))
  settled g g1 p d h k (inl c) = inl (Closes-trans g g1 _ [] [] (Closes-refl g g1 h k) c)
  settled g g1 p d h k (inr c) = inr (d, Closes-trans g g1 _ [] _ (Closes-refl g g1 h k) c)

  settle-Closes :
      (p : TrackedPosition N) (d : ClosedContract N) (g : Progress X)
      → Closes g (settle X p d g) [] ⊎ Closes g (settle X p d g) ((p, d) ∷ [])
  unfolding settle
  settle-Closes p d g =
      let (s, answer) =
        X.record_exit d.broker_order_id d.exit_price d.profit_loss d.closed_at g.world.state in
      ground (arith, append-nil g.closing, append-nil g.world.published)

  vanished-Closes :
      (c : X.Client) (p : TrackedPosition N) (g : Progress X)
      → Closes g (vanished X c p g) []
        ⊎ ((d : ClosedContract N) × Closes g (vanished X c p g) ((p, d) ∷ []))
  unfolding vanished
  vanished-Closes c p g =
      let w = g.world in
      let o = closed_details X (some c) p.position_id w.state in
      let g1 : Progress X = record g { world = record w { state = o.0 } } in
      elim (Option-cases o.1) [
        | inl e ↦ rw (e, vanished) (inl (Closes-refl g g1 refl refl))
        | inr (d, e) ↦ rw (e, vanished) (settled g g1 p d refl refl (settle-Closes p d g1))
      ]

  -- Whether a position that the broker lists as open was queued.
  abbrev pub Unlisted : List ℕ → TrackedPosition N × ClosedContract N → Type 0
  Unlisted open_ids (p, d) = holds p.position_id open_ids ≡ false

  -- What the reconciliation of one position, or of several, amounts to.
  abbrev pub Reconciled : List ℕ → Progress X → Progress X → Type 0
  Reconciled open_ids g g' =
      (closed : List (TrackedPosition N × ClosedContract N)) × Closes g g' closed
      × All (Unlisted open_ids) closed

  if-Reconciled :
      (open_ids : List ℕ) (b : Bool) (g g1 g2 : Progress X)
      → Reconciled open_ids g g1
      → Reconciled open_ids g g2
      → Reconciled open_ids g (if b then g1 else g2)
  if-Reconciled open_ids true g g1 g2 h k = h
  if-Reconciled open_ids false g g1 g2 h k = k

  unlisted-Reconciled :
      (c : X.Client) (open_ids : List ℕ) (p : TrackedPosition N) (g : Progress X)
      → Reconciled open_ids g (if holds p.position_id open_ids then g else vanished X c p g)
  unlisted-Reconciled c open_ids p g = elim (Bool-cases (holds p.position_id open_ids)) [
    | inl listed ↦ rw listed ([], Closes-refl g g refl refl, tt)
    | inr gone ↦ rw gone (elim (vanished-Closes c p g) [
      | inl h ↦ ([], h, tt)
      | inr (d, h) ↦ ((p, d) ∷ [], h, (gone, tt))
    ])
  ]

  position-Reconciled :
      (c : X.Client) (open_ids : List ℕ) (p : TrackedPosition N) (g : Progress X)
      → Reconciled open_ids g (reconcile_position X c open_ids p g)
  unfolding reconcile_position
  position-Reconciled c open_ids p g =
      if-Reconciled open_ids g.raised g g _ ([], Closes-refl g g refl refl, tt)
        (unlisted-Reconciled c open_ids p g)

  -- Reconciling the positions of an account with the ids that its broker lists as open queues the ids
  -- of exactly those positions whose exit it publishes, in the same order, and no position that the
  -- broker lists is among them.
  pub reconcile_positions_closes :
      (c : X.Client) (open_ids : List ℕ) (ps : List (TrackedPosition N)) (g : Progress X)
      → Reconciled open_ids g (reconcile_positions X c open_ids ps g)
  unfolding reconcile_positions
  reconcile_positions_closes c open_ids [] g = ([], Closes-refl g g refl refl, tt)
  reconcile_positions_closes c open_ids (p ∷ ps) g =
      let g1 = reconcile_position X c open_ids p g in
      let (xs, h, u) = position-Reconciled c open_ids p g in
      let (ys, k, v) = reconcile_positions_closes c open_ids ps g1 in
      (xs ++ ys, Closes-trans g g1 _ xs ys h k, All-append (Unlisted open_ids) xs ys u v)
