-- ===== src/Prelude/Dict.antt =====
-- Python's dict over dates: pairs of a key and its value. The order of the pairs is not used.
use multi_cloud_platform.Prelude.Tests.{◌==◌, if◌then◌else◌}
use multi_cloud_platform.Prelude.Lists.{keep_if}
use Prim.Native.Nat.{ℕ}
use mathlib.Core.Path.{◌≡◌}
use mathlib.Core.Bool.{Bool, true, false, not}
use mathlib.Core.Option.{Option, none, some}
use mathlib.Core.List.{List, [], ◌∷◌}
use native.Mathlib.Omega.{arith}

abbrev pub Dict : Type 0 → Type 0
Dict V = List (ℕ × V)

module _ {V : Type 0} where
  -- `out.get(d)`
  abbrev pub lookup : ℕ → Dict V → Option V
  lookup d [] = none
  lookup d (pair ∷ out) = let rest = lookup d out in if pair.0 == d then some pair.1 else rest

  abbrev pub is_key : Option V → Bool
  is_key none = false
  is_key (some v) = true

  -- `out.pop(d, None)`
  abbrev pub erase : ℕ → Dict V → Dict V
  erase d out = keep_if (λ pair. not (pair.0 == d)) out

  -- `out[d] = v`
  abbrev pub insert : ℕ → V → Dict V → Dict V
  insert d v out = (d, v) ∷ erase d out

  pub lookup-erase :
      (out : Dict V) (d e : ℕ) → lookup e (erase d out) ≡ (if e == d then none else lookup e out)
  lookup-erase [] d e = ground arith
  lookup-erase (pair ∷ out) d e = ground (arith, lookup-erase out d e)

  pub lookup-insert :
      (out : Dict V) (d e : ℕ) (v : V)
      → lookup e (insert d v out) ≡ (if e == d then some v else lookup e out)
  lookup-insert out d e v = ground (arith, lookup-erase out d e)
