-- ===== src/Common/Texts.antt =====
-- Texts that begin with different keys.
use Prim.Native.Nat.{ℕ, zero, suc, ◌<◌}
use Prim.Native.String.{String, ◌++◌ as ◌<>◌}
use Prim.Native.Char.{code}
use mathlib.Core.Path.{◌≡◌, refl, sym, ap, ◌∙◌}
use mathlib.Core.Logic.{◌≢◌}
use mathlib.Core.Bool.{false}
use text.Mathlib.Text.{◌==◌ as str_eq}
use text.Mathlib.TextLemmas.{cons-append}
use text.Mathlib.TextEquality.{eq_iff}
use native.Mathlib.Omega.{arith}

-- The code of the character at a place.
abbrev pub code_at : ℕ → String → ℕ
code_at n String.[] = 0
code_at zero (String.◌∷◌ c s) = code c
code_at (suc n) (String.◌∷◌ c s) = code_at n s

-- How many characters.
abbrev pub size : String → ℕ
size String.[] = 0
size (String.◌∷◌ c s) = suc (size s)

pub code_at-append : (n : ℕ) (s t : String) → n < size s → code_at n (s <> t) ≡ code_at n s
code_at-append n String.[] t h = elim h [ ]
code_at-append zero (String.◌∷◌ c s) t h = rw cons-append refl
code_at-append (suc n) (String.◌∷◌ c s) t h = rw cons-append (code_at-append n s t (omega arith))

pub str_eq-apart :
    (n : ℕ) (p q a b : String)
    → n < size p
    → n < size q
    → code_at n p ≢ code_at n q
    → str_eq (p <> a) (q <> b) ≡ false
str_eq-apart n p q a b h k d = ground (arith, eq_iff (p <> a) (q <> b), same)
  where
    same : (p <> a) ≡ (q <> b) → code_at n p ≡ code_at n q
    same e = sym (code_at-append n p a h) ∙ ap (code_at n) e ∙ code_at-append n q b k
