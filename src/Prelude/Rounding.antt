-- ===== src/Prelude/Rounding.antt =====
-- `Decimal.quantize` with ROUND_HALF_EVEN, of a quotient.
use multi_cloud_platform.Prelude.Tests.{ltb, ◌==◌, if◌then◌else◌}
use multi_cloud_platform.Prelude.Int.{ℤ, pos, negsuc, sub_ℕ}
use Prim.Native.Nat.{ℕ, suc, ◌+◌, ◌*◌, ◌/◌, ◌%◌, ◌≤◌, ◌<◌}
use mathlib.Core.Path.{◌≡◌, ap}
use mathlib.Core.Logic.{◌↔◌}
use native.Mathlib.Decide.{dec_lt}
use native.Mathlib.Nat.{div-add-mod, mod-lt, mul-le-mul_left}
use native.Mathlib.Omega.{arith}

-- The quotient and the remainder decide.
round_parts : ℕ → ℕ → ℕ → ℕ
round_parts q r d =
    if ltb (2 * r) d then q else if ltb d (2 * r) then q + 1 else if q % 2 == 0 then q else q + 1

-- The whole number nearest to n / d, and the even one of two that are equally near.
unfoldable pub round_half_even : ℕ → ℕ → ℕ
unfolding round_parts
round_half_even n d = round_parts (n / d) (n % d) d

-- The same of an integer: the rule is symmetric.
unfoldable pub round_ℤ : ℤ → ℕ → ℤ
round_ℤ (pos n) d = pos (round_half_even n d)
round_ℤ (negsuc n) d = sub_ℕ 0 (round_half_even (suc n) d)

up_to_even :
    (q r d k : ℕ) → r < d → 2 * k + 2 ≤ round_parts q r d → (4 * k + 3) * d ≤ 2 * (d * q + r)
unfolding round_parts
up_to_even q r d k h p = elim (dec_lt q (2 * k + 1)) [
  | yes below ↦ absurd (ground arith)
  | no above ↦ elim (dec_lt (2 * k + 1) q) [
    | yes far ↦ grind (arith, mul-le-mul_left d far)
    | no near ↦
        let e : q ≡ 2 * k + 1 = omega arith in
        let half : d ≤ 2 * r = ground arith in omega (arith, ap (λ (x : ℕ). d * x) e)
  ]
]

even_up_to :
    (q r d k : ℕ) → r < d → (4 * k + 3) * d ≤ 2 * (d * q + r) → 2 * k + 2 ≤ round_parts q r d
unfolding round_parts
even_up_to q r d k h p = elim (dec_lt q (2 * k + 1)) [
  | yes below ↦
      let small : q ≤ 2 * k = omega arith in absurd (omega (arith, mul-le-mul_left d small))
  | no above ↦ elim (dec_lt (2 * k + 1) q) [
    | yes far ↦ ground arith
    | no near ↦
        let e : q ≡ 2 * k + 1 = omega arith in
        let half : d ≤ 2 * r = omega (arith, ap (λ (x : ℕ). d * x) e) in ground arith
  ]
]

-- Rounding reaches an even number exactly from half a unit below it on.
pub round_half_even-ge :
    (n d k : ℕ) → 0 < d → (2 * k + 2 ≤ round_half_even n d) ↔ ((4 * k + 3) * d ≤ 2 * n)
unfolding round_half_even
round_half_even-ge n d k h =
    let parts = div-add-mod n d in
    (
      λ p. let q = up_to_even (n / d) (n % d) d k (mod-lt n h) p in omega arith,
      λ p. even_up_to (n / d) (n % d) d k (mod-lt n h) (omega arith),
    )
