-- ===== src/Trading/Worker/Resumed.antt =====
-- What a restart leaves of the positions that are tracked. (account_worker.py, `_rehydrate_positions`)
use clartt_capital.Common.{
  ℕ, ◌≡◌, refl, true, Option, none, some, List, [], ◌∷◌, ◌++◌, String, ◌==◌, Bool-cases,
  Option-cases, inl, inr, arith, if◌then◌else◌,
}
use clartt_capital.Floats.{Floats}
use clartt_capital.Trading.Models.{Signal, TradingAccount}
use clartt_capital.Trading.ExitRules.{ExitRules, from_dict, has_any_enabled}
use clartt_capital.Trading.Positions.Models.{TrackedPosition}
use clartt_capital.Trading.Positions.Cycle.{Monitor, find, put, tracked, rehydrate_position}
use clartt_capital.Trading.Worker.Rehydrate.{
  Row, signal_of, or_price, after, rehydrate_row, rehydrate_rows,
}

find-put {ℓ} :
    {V : Type ℓ} (k j : ℕ) (v : V) (m : List (ℕ × V))
    → find j (put k v m) ≡ (if k == j then some v else find j m)
unfolding find put
find-put k j v [] = refl
find-put k j v ((i, u) ∷ m) = ground (arith, find-put k j v m)

module _ {N : Floats} (V : String → Option (ExitRules N)) (a : TradingAccount N) where
  abbrev pub Keeps : Monitor N → Monitor N → Type 0
  Keeps m m' =
      (j : ℕ) (p : TrackedPosition N) → find j m.positions ≡ some p → find j m'.positions ≡ some p

  abbrev KeepsIf : Monitor N → Option (Monitor N) → Type 0
  KeepsIf m none = Unit {0}
  KeepsIf m (some m') = Keeps m m'

  rehydrate_position-Keeps :
      (id : ℕ) (s : Signal N) (entry : N.F) (time : ℕ) (m : Monitor N)
      → KeepsIf m (rehydrate_position N V id s a entry time m)
  unfolding rehydrate_position
  rehydrate_position-Keeps id s entry time m = elim (Option-cases (from_dict N V s.exit_rules)) [
    | inl e ↦ rw (e, rehydrate_position) tt
    | inr (rules, e) ↦ elim (Bool-cases (has_any_enabled N rules)) [
      | inr b ↦ rw (e, rehydrate_position) (rw b (λ j p h. h))
      | inl b ↦ elim (Option-cases (find id m.positions)) [
        | inr (q, f) ↦ rw (e, rehydrate_position) (rw b (rw f (λ j p h. h)))
        | inl f ↦
            rw (e, rehydrate_position)
              (rw b (
                rw f (λ j p h.
                  ground
                    (arith, find-put id j (tracked N V true id s a entry time rules) m.positions))))
      ]
    ]
  ]

  -- A row that can be rebuilt, with its position and its rules, of which one is enabled.
  pub record IsResumable (r : Row N) : Type 0 where
    pub signal : Signal N
    pub position_id : ℕ
    pub fill : N.F
    pub rules : ExitRules N
    pub has_signal : signal_of N r ≡ some signal
    pub has_id : r.broker_order_id ≡ some position_id
    pub has_fill : or_price N r.fill_price (some signal.entry_price) ≡ some fill
    pub has_rules : from_dict N V signal.exit_rules ≡ some rules
    pub enabled : has_any_enabled N rules ≡ true

  rehydrate_row-Keeps : (r : Row N) (m : Monitor N) → KeepsIf m (rehydrate_row V a r m)
  unfolding rehydrate_row
  rehydrate_row-Keeps r m = elim (Option-cases (signal_of N r)) [
    | inl e ↦ rw (e, rehydrate_row) tt
    | inr (s, e) ↦ elim (Option-cases r.broker_order_id) [
      | inl f ↦ rw (e, rehydrate_row) (rw f tt)
      | inr (id, f) ↦ elim (Option-cases (or_price N r.fill_price (some s.entry_price))) [
        | inl g ↦ rw (e, rehydrate_row) (rw f (rw g tt))
        | inr (fill, g) ↦
            rw (e, rehydrate_row) (rw f (rw g (rehydrate_position-Keeps id s fill r.opened_at m)))
      ]
    ]
  ]

  after-Keeps : (o : Option (Monitor N)) (m : Monitor N) → KeepsIf m o → Keeps m (after o m)
  after-Keeps none m h = λ j p q. q
  after-Keeps (some m') m h = h

  rehydrate_rows-Keeps : (rs : List (Row N)) (m : Monitor N) → Keeps m (rehydrate_rows V a rs m)
  unfolding rehydrate_rows
  rehydrate_rows-Keeps [] m j p h = h
  rehydrate_rows-Keeps (r ∷ rs) m j p h =
      rehydrate_rows-Keeps rs (after (rehydrate_row V a r m) m) j p
        (after-Keeps (rehydrate_row V a r m) m (rehydrate_row-Keeps r m) j p h)

  -- The position that has the id already, or else the new one.
  abbrev pub kept_or : TrackedPosition N → Option (TrackedPosition N) → TrackedPosition N
  kept_or new none = new
  kept_or new (some p) = p

  position_found :
      (id : ℕ) (s : Signal N) (entry : N.F) (time : ℕ) (rules : ExitRules N) (m : Monitor N)
      → from_dict N V s.exit_rules ≡ some rules
      → has_any_enabled N rules ≡ true
      → find id (after (rehydrate_position N V id s a entry time m) m).positions
        ≡ some (kept_or (tracked N V true id s a entry time rules) (find id m.positions))
  unfolding rehydrate_position
  position_found id s entry time rules m e b = elim (Option-cases (find id m.positions)) [
    | inr (q, f) ↦ rw (e, rehydrate_position) (rw b (rw f f))
    | inl f ↦
        let new = tracked N V true id s a entry time rules in
        rw (e, rehydrate_position) (rw b (rw f (ground (arith, find-put id id new m.positions))))
  ]

  -- The position of a row that can be rebuilt: the one that has its id already, or a new one from the
  -- row's signal, fill price, time of opening and rules, with its partial close marked as done.
  abbrev pub resumed : (r : Row N) → IsResumable r → Option (TrackedPosition N) → TrackedPosition N
  resumed r q = kept_or (tracked N V true q.position_id q.signal a q.fill r.opened_at q.rules)

  row_found :
      (r : Row N) (m : Monitor N) (q : IsResumable r)
      → find q.position_id (after (rehydrate_row V a r m) m).positions
        ≡ some (resumed r q (find q.position_id m.positions))
  unfolding rehydrate_row
  row_found r m q =
      let found =
        position_found q.position_id q.signal q.fill r.opened_at q.rules m q.has_rules q.enabled in
      rw (q.has_signal, rehydrate_row) (rw q.has_id (rw q.has_fill found))

  -- Whatever rows stand before and after it, a row that can be rebuilt and has an exit rule that is
  -- enabled is tracked in the end: as the position that the monitor or an earlier row gave its id, if
  -- there is one, and otherwise as a new one from its own signal, fill price, time of opening and
  -- rules. A position that was tracked before the rows were read is tracked as it was.
  pub rehydrate_rows_resumes :
      (before behind : List (Row N)) (r : Row N) (m : Monitor N)
      → (q : IsResumable r)
      → let m' = rehydrate_rows V a (before ++ r ∷ behind) m in
        let earlier = find q.position_id (rehydrate_rows V a before m).positions in
        (find q.position_id m'.positions ≡ some (resumed r q earlier)) × Keeps m m'
  unfolding rehydrate_rows
  rehydrate_rows_resumes [] behind r m q = (
    rehydrate_rows-Keeps behind (after (rehydrate_row V a r m) m) q.position_id
        (resumed r q (find q.position_id m.positions)) (row_found r m q),
    rehydrate_rows-Keeps (r ∷ behind) m,
  )
  rehydrate_rows_resumes (b ∷ before) behind r m q =
      let (found, keeps) =
        rehydrate_rows_resumes before behind r (after (rehydrate_row V a b m) m) q in
      (found, rehydrate_rows-Keeps (b ∷ before ++ r ∷ behind) m)
