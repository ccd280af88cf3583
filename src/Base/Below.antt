-- ===== src/Base/Below.antt =====
-- Checking all numbers below a bound, which computes where the bound is a numeral.
use Prim.Native.Nat.{ℕ, zero, suc, ◌<◌}
use mathlib.Core.Bool.{Bool, true, ◌&&◌}
use mathlib.Core.Path.{◌≡◌, subst, sym}
use mathlib.Core.Logic.{inl, inr}
use native.Mathlib.Omega.{arith}
use frimo_messenger.Base.Tests.{◌==◌, ==→≡, Bool-cases}

unfoldable pub all_below : ℕ → (ℕ → Bool) → Bool
all_below zero p = true
all_below (suc k) p = p k && all_below k p

pub all_below_sound : (k : ℕ) (p : ℕ → Bool) (n : ℕ) → all_below k p ≡ true → n < k → p n ≡ true
unfolding all_below
all_below_sound zero p n h small = absurd (omega arith)
all_below_sound (suc k) p n h small = elim (Bool-cases (n == k)) [
  | inl e ↦ subst (λ m. p m ≡ true) (sym (==→≡ n k e)) (ground arith)
  | inr e ↦ all_below_sound k p n (ground arith) (ground (arith, e))
]
