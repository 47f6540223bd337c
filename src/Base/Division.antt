-- ===== src/Base/Division.antt =====
-- Division by a fixed number, one step at a time.
use Prim.Native.Nat.{ℕ, ◌+◌, ◌*◌, ◌/◌, ◌%◌, ◌≤◌, ◌<◌}
use mathlib.Core.Path.{◌≡◌, ap, ◌∙◌}
use native.Mathlib.Nat.{div-add-mod, mod-lt, div-eq_of_lt-le}
use native.Mathlib.Decide.{dec_lt}
use native.Mathlib.Omega.{arith}
use mes_copy.Base.Tests.{◌==◌, if◌then◌else◌}

-- The quotient moves on exactly when the remainder comes round to 0.
pub div-add_one : (n k : ℕ) → 2 ≤ k → (n + 1) / k ≡ (if (n + 1) % k == 0 then n / k + 1 else n / k)
div-add_one n k h =
    let whole : k * (n / k) + n % k ≡ n = div-add-mod n k in
    let next : k * ((n + 1) / k) + (n + 1) % k ≡ n + 1 = div-add-mod (n + 1) k in
    let small : n % k < k = mod-lt n (omega arith) in
    let small' : (n + 1) % k < k = mod-lt (n + 1) (omega arith) in
    elim (dec_lt (n % k + 1) k) [
      | yes inside ↦
          let same : (n + 1) / k ≡ n / k = div-eq_of_lt-le k (grind arith) (grind arith) in
          let scaled : k * ((n + 1) / k) ≡ k * (n / k) = ap (λ q. k * q) same in ground arith
      | no edge ↦
          let more : (n + 1) / k ≡ n / k + 1 = div-eq_of_lt-le k (grind arith) (grind arith) in
          let scaled : k * ((n + 1) / k) ≡ k * (n / k) + k = ap (λ q. k * q) more ∙ omega arith in
          ground arith
    ]
