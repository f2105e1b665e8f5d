-- ===== src/Prelude/Order.antt =====
-- The order of the native numbers is well founded, and a Boolean test over a small range.
use Prim.Native.Nat.{ℕ, zero, suc, ◌<◌, ◌≤◌, ◌+◌}
use mathlib.Core.Path.{◌≡◌, subst}
use mathlib.Core.Bool.{Bool, true, ◌&&◌}
use mathlib.Core.WellFounded.{Acc, WellFounded}
use native.Mathlib.Omega.{arith}
use native.Mathlib.Decide.{ℕ_discrete}

Acc-below : (k n : ℕ) → n < k → Acc ◌<◌ n
Acc-below zero n h = elim h [ ]
Acc-below (suc k) n h = Acc.intro n (λ m hm. Acc-below k m (omega arith))

unfoldable pub lt_wf : WellFounded ◌<◌
unfolding Acc-below
lt_wf = record { apply = λ n. Acc-below (suc n) n (omega arith) }

-- The test holds at the `count` numbers from `first` on.
unfoldable pub table_holds : (ℕ → Bool) → (first count : ℕ) → Bool
table_holds test first zero = true
table_holds test first (suc count) = test first && table_holds test (first + 1) count

pub table_holds_entry :
    (test : ℕ → Bool) (first count k : ℕ)
    → table_holds test first count ≡ true
    → first ≤ k
    → k < first + count
    → test k ≡ true
unfolding table_holds
table_holds_entry test first zero k h lo hi = absurd (omega arith)
table_holds_entry test first (suc count) k h lo hi = elim (ℕ_discrete first k) [
  | yes same ↦ subst (λ i. test i ≡ true) same (ground arith)
  | no differ ↦
      table_holds_entry test (first + 1) count k (ground arith) (omega arith) (omega arith)
]
