-- ===== src/Prelude/Texts.antt =====
-- Python's dict over texts, and membership in a list or set of texts.
use multi_cloud_platform.Prelude.Tests.{str_eq, if◌then◌else◌}
use multi_cloud_platform.Prelude.Sort.{In}
use Prim.Native.String.{String}
use mathlib.Core.Path.{◌≡◌, refl}
use mathlib.Core.Logic.{inl, inr}
use mathlib.Core.Bool.{Bool, true, false, ◌||◌}
use mathlib.Core.Option.{Option, none, some}
use mathlib.Core.List.{List, [], ◌∷◌}
use native.Mathlib.Omega.{arith}
use text.Mathlib.TextEquality.{eq_iff}

abbrev pub TextDict : Type 0 → Type 0
TextDict V = List (String × V)

module _ {V : Type 0} where
  -- `d.get(k)`
  abbrev pub get : TextDict V → String → Option V
  get [] k = none
  get ((key, v) ∷ d) k = let rest = get d k in if str_eq key k then some v else rest

  -- `d.get(k)` for a key that can be `None`, which is no key of a dict over texts.
  abbrev pub get_opt : TextDict V → Option String → Option V
  get_opt d none = none
  get_opt d (some k) = get d k

module _ {A : Type 0} where
  -- `d.get(k, {})`
  abbrev pub or_empty : Option (List A) → List A
  or_empty none = []
  or_empty (some xs) = xs

-- `k in ks`
abbrev pub elem_text : String → List String → Bool
elem_text k [] = false
elem_text k (x ∷ xs) = str_eq k x || elem_text k xs

-- Whether a text stands in the list twice.
abbrev pub has_twice : List String → Bool
has_twice [] = false
has_twice (x ∷ xs) = elem_text x xs || has_twice xs

-- `a == b` of two values that can be `None`.
abbrev pub opt_eq : Option String → Option String → Bool
opt_eq none none = true
opt_eq (some a) (some b) = str_eq a b
opt_eq _ _ = false

pub str_eq_refl : (a : String) → str_eq a a ≡ true
str_eq_refl a = (eq_iff a a).1 refl

pub In-elem_text : (k : String) (ks : List String) → In k ks → elem_text k ks ≡ true
In-elem_text k [] i = absurd i
In-elem_text k (x ∷ xs) (inl e) = rw e (rw (str_eq_refl x) refl)
In-elem_text k (x ∷ xs) (inr i) = ground (arith, In-elem_text k xs i)
