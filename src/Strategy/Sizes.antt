-- ===== src/Strategy/Sizes.antt =====
-- The bounds of a position size and of the recent part of the closes. (signal_helpers.py)
use clartt_capital.Common.{
  ℕ, ◌-◌, ◌≤◌, ◌≡◌, refl, true, false, List, ltb, length, length-drop, Bool-cases, ◌⊎◌, inl, inr,
  arith,
}
use clartt_capital.Floats.{Floats, IsLawful}
use clartt_capital.Strategy.Guards.{
  recent_count, recent_closes, is_zero, check_volatility_guard, compute_position_size, divided,
}
use clartt_capital.Breaker.{returned}

le→not_ltb : (a b : ℕ) → b ≤ a → ltb a b ≡ false
le→not_ltb a b h = ground arith

module _ (N : Floats) (L : IsLawful N) where
  not_below : (a b : N.F) → N.lt a b ≡ true → N.lt b a ≡ false
  not_below a b h = elim (Bool-cases (N.lt b a)) [
    | inl k ↦ ground (arith, L.lt_of_lt_of_le a b a h (L.le_of_lt b a k), L.lt_irrefl a)
    | inr k ↦ k
  ]

  -- The distance of the stop loss, and the size that risks the percentage over it.
  abbrev pub distance_of : N.F → N.F → N.F
  distance_of entry_price stop_loss = N.abs (N.sub entry_price stop_loss)

  abbrev pub risk_size : N.F → N.F → N.F
  risk_size risk_pct distance = N.round 2 (N.div risk_pct (N.mul distance (N.lit 100)))

  -- The size of a position is computed without an exception, provided that a hundred times a distance
  -- that is not zero is not zero. It is the minimum for a distance of zero; otherwise it is not below
  -- the minimum, not below the size that risks the percentage over the distance, and one of the two.
  pub compute_position_size_bound :
      (risk_pct entry_price stop_loss min_size : N.F)
      → ((d : N.F) → is_zero N d ≡ false → is_zero N (N.mul d (N.lit 100)) ≡ false)
      → let distance = distance_of entry_price stop_loss in
        let size = risk_size risk_pct distance in
        (x : N.F) × (compute_position_size N risk_pct entry_price stop_loss min_size ≡ returned x)
        × (N.lt x min_size ≡ false)
        × ((is_zero N distance ≡ true → x ≡ min_size))
        × ((is_zero N distance ≡ false → (N.lt x size ≡ false) × ((x ≡ min_size) ⊎ (x ≡ size))))
  unfolding compute_position_size divided
  compute_position_size_bound risk_pct entry_price stop_loss min_size scaled =
      let distance = distance_of entry_price stop_loss in
      let size = risk_size risk_pct distance in
      elim (Bool-cases (is_zero N distance)) [
        | inl z ↦ (min_size, rw z refl, L.lt_irrefl min_size, λ _. refl, λ n. ground arith)
        | inr z ↦ elim (Bool-cases (N.lt min_size size)) [
          | inl k ↦ (
            size,
            rw z (rw (scaled distance z) (rw k refl)),
            not_below min_size size k,
            λ n. ground arith,
            λ _. (L.lt_irrefl size, inr refl),
          )
          | inr k ↦ (
            min_size,
            rw z (rw (scaled distance z) (rw k refl)),
            L.lt_irrefl min_size,
            λ n. refl,
            λ _. (k, inl refl),
          )
        ]
      ]

module _ (N : Floats) where
  -- Of four closes or more, the recent ones are at least two and at most all.
  recent_closes_bounds :
      (closes : List N.F)
      → 4 ≤ length closes
      → (2 ≤ length (recent_closes N closes)) × (length (recent_closes N closes) ≤ length closes)
  unfolding recent_closes
  recent_closes_bounds closes h =
      let n = length closes in
      let e = length-drop (n - recent_count n) closes in (ground (arith, e), ground (arith, e))

  -- The guard never lets a volatility pass for want of recent closes: with four closes or more, and a
  -- historical deviation that is not zero, it passes if and only if the recent deviation is at most
  -- the multiple of the historical one.
  pub check_volatility_guard_decides :
      (stdev : List N.F → N.F) (closes : List N.F) (multiplier : N.F)
      → 4 ≤ length closes
      → is_zero N (stdev closes) ≡ false
      → check_volatility_guard N stdev closes multiplier
        ≡ N.le (stdev (recent_closes N closes)) (N.mul multiplier (stdev closes))
  unfolding check_volatility_guard
  check_volatility_guard_decides stdev closes multiplier h z =
      let (two, all) = recent_closes_bounds closes h in
      rw (le→not_ltb (length closes) 4 h, check_volatility_guard)
        (rw z (rw (le→not_ltb (length (recent_closes N closes)) 2 two) refl))
