-- ===== src/Base/Int.antt =====
-- Signed integers, as far as the program stores them: an OPC UA Int16 is kept and never computed
-- with. `negsuc n` is -(n + 1).
use Prim.Native.Nat.{ℕ}
use mathlib.Core.Path.{◌≡◌, ap}
use mathlib.Core.Bool.{Bool, true, false}
use native.Mathlib.Omega.{arith}
use mes_copy.Base.Tests.{◌==◌, ==_iff}

pub data ℤ : Type 0 where
  pos : ℕ → ℤ
  negsuc : ℕ → ℤ

abbrev pub int_eq : ℤ → ℤ → Bool
int_eq (pos m) (pos n) = m == n
int_eq (negsuc m) (negsuc n) = m == n
int_eq _ _ = false

pub int_eq-true : (x y : ℤ) → int_eq x y ≡ true → x ≡ y
int_eq-true (pos m) (pos n) e = ap pos (ground (arith, ==_iff m n))
int_eq-true (negsuc m) (negsuc n) e = ap negsuc (ground (arith, ==_iff m n))
int_eq-true (pos m) (negsuc n) e = cc
int_eq-true (negsuc m) (pos n) e = cc

pub int_eq_self : (x : ℤ) → int_eq x x ≡ true
int_eq_self (pos n) = ground (arith, ==_iff n n)
int_eq_self (negsuc n) = ground (arith, ==_iff n n)
