-- ===== src/Trading/Candles/Spaced.antt =====
-- Lists of candles that are at least a minute apart, their ranges, and how they are sorted.
use clartt_capital.Common.{
  ℕ, ◌+◌, ◌≡◌, ◌<◌, ◌≤◌, refl, ap, sym, ◌∙◌, Bool, true, false, List, [], ◌∷◌, ◌++◌, leb, All,
  arith, inl, inr, ◌⊎◌, if◌then◌else◌, ◌&&◌,
}
use clartt_capital.Trading.Candles.{Candle, within}

module _ {F : Type 0} where
  abbrev pub IsBefore : Candle F → Candle F → Type 0
  IsBefore c d = c.epoch + 60 ≤ d.epoch

  -- In the order of time, each a minute or more after the one before.
  abbrev pub IsSpaced : List (Candle F) → Type 0
  IsSpaced [] = Unit
  IsSpaced (c ∷ cs) = All (IsBefore c) cs × IsSpaced cs

  abbrev pub IsIn : ℕ → ℕ → Candle F → Type 0
  IsIn a b c = (a ≤ c.epoch) × (c.epoch ≤ b)

  within-nil : (a b : ℕ) → within {F = F} a b [] ≡ []
  unfolding within
  within-nil a b = refl

  within-cong :
      (a b : ℕ) (c : Candle F) (cs ds : List (Candle F))
      → within a b cs ≡ within a b ds
      → within a b (c ∷ cs) ≡ within a b (c ∷ ds)
  unfolding within
  within-cong a b c cs ds h = ap (λ r. if leb a c.epoch && leb c.epoch b then c ∷ r else r) h

  if-append :
      (k : Bool) (c : Candle F) (r s : List (Candle F))
      → (if k then c ∷ (r ++ s) else r ++ s) ≡ (if k then c ∷ r else r) ++ s
  if-append true c r s = refl
  if-append false c r s = refl

  within-cons_append :
      (a b : ℕ) (c : Candle F) (cs ds : List (Candle F))
      → within a b (cs ++ ds) ≡ within a b cs ++ within a b ds
      → within a b (c ∷ (cs ++ ds)) ≡ within a b (c ∷ cs) ++ within a b ds
  unfolding within
  within-cons_append a b c cs ds h =
      let k = leb a c.epoch && leb c.epoch b in
      ap (λ r. if k then c ∷ r else r) h ∙ if-append k c (within a b cs) (within a b ds)

  -- The head of a list stays or goes.
  within-cons :
      (a b : ℕ) (c : Candle F) (cs : List (Candle F))
      → ((within a b (c ∷ cs) ≡ c ∷ within a b cs) × (a ≤ c.epoch) × (c.epoch ≤ b))
        ⊎ ((within a b (c ∷ cs) ≡ within a b cs) × ((c.epoch < a) ⊎ (b < c.epoch)))
  unfolding within
  within-cons a b c cs = ground arith

  All-within :
      (P : Candle F → Type 0) (a b : ℕ) (cs : List (Candle F)) → All P cs → All P (within a b cs)
  All-within P a b [] h = rw (within-nil a b) tt
  All-within P a b (c ∷ cs) (p, h) = elim (within-cons a b c cs) [
    | inl (e, _, _) ↦ rw e (p, All-within P a b cs h)
    | inr (e, _) ↦ rw e (All-within P a b cs h)
  ]

  pub within-IsSpaced : (a b : ℕ) (cs : List (Candle F)) → IsSpaced cs → IsSpaced (within a b cs)
  within-IsSpaced a b [] h = rw (within-nil a b) tt
  within-IsSpaced a b (c ∷ cs) (p, h) = elim (within-cons a b c cs) [
    | inl (e, _, _) ↦ rw e (All-within (IsBefore c) a b cs p, within-IsSpaced a b cs h)
    | inr (e, _) ↦ rw e (within-IsSpaced a b cs h)
  ]

  pub within-IsIn : (a b : ℕ) (cs : List (Candle F)) → All (IsIn a b) (within a b cs)
  within-IsIn a b [] = rw (within-nil a b) tt
  within-IsIn a b (c ∷ cs) = elim (within-cons a b c cs) [
    | inl (e, l, h) ↦ rw e ((l, h), within-IsIn a b cs)
    | inr (e, _) ↦ rw e (within-IsIn a b cs)
  ]

  pub within-all : (a b : ℕ) (cs : List (Candle F)) → All (IsIn a b) cs → within a b cs ≡ cs
  within-all a b [] h = within-nil a b
  within-all a b (c ∷ cs) ((l, u), h) = elim (within-cons a b c cs) [
    | inl (e, _, _) ↦ e ∙ ap (λ ds. c ∷ ds) (within-all a b cs h)
    | inr (e, out) ↦ ground arith
  ]

  pub within-none :
      (a b : ℕ) (cs : List (Candle F)) → All (λ c. b < c.epoch) cs → within a b cs ≡ []
  within-none a b [] h = within-nil a b
  within-none a b (c ∷ cs) (p, h) = elim (within-cons a b c cs) [
    | inl (e, l, u) ↦ ground arith
    | inr (e, _) ↦ e ∙ within-none a b cs h
  ]

  pub within-within :
      (a b d : ℕ) (cs : List (Candle F)) → b ≤ d → within a b (within a d cs) ≡ within a b cs
  within-within a b d [] l = ap (within a b) (within-nil a d)
  within-within a b d (c ∷ cs) l =
      let ih = within-within a b d cs l in
      elim (within-cons a d c cs) [
        | inl (e, _, _) ↦ ap (within a b) e ∙ within-cong a b c _ _ ih
        | inr (e, out) ↦ elim (within-cons a b c cs) [
          | inl (f, x, y) ↦ ground arith
          | inr (f, _) ↦ ap (within a b) e ∙ ih ∙ sym f
        ]
      ]

  pub within-append :
      (a b : ℕ) (cs ds : List (Candle F)) → within a b (cs ++ ds) ≡ within a b cs ++ within a b ds
  within-append a b [] ds = ap (λ r. r ++ within a b ds) (sym (within-nil a b))
  within-append a b (c ∷ cs) ds = within-cons_append a b c cs ds (within-append a b cs ds)

  pub All-append :
      (P : Candle F → Type 0) (cs ds : List (Candle F)) → All P (cs ++ ds) → All P cs × All P ds
  All-append P [] ds h = (tt, h)
  All-append P (c ∷ cs) ds (p, h) = let (q, r) = All-append P cs ds h in ((p, q), r)

  -- Every candle of the first list is a minute or more before every one of the second.
  abbrev pub AllBefore : List (Candle F) → List (Candle F) → Type 0
  AllBefore cs ds = All (λ c. All (IsBefore c) ds) cs

  pub IsSpaced-append :
      (cs ds : List (Candle F)) → IsSpaced (cs ++ ds) → IsSpaced cs × IsSpaced ds × AllBefore cs ds
  IsSpaced-append [] ds h = (tt, h, tt)
  IsSpaced-append (c ∷ cs) ds (p, h) =
      let (q, r) = All-append (IsBefore c) cs ds p in
      let (x, y, z) = IsSpaced-append cs ds h in ((q, x), y, (r, z))
