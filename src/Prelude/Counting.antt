-- ===== src/Prelude/Counting.antt =====
-- A list of different numbers of a range is as long as the range only if it has all of them.
use multi_cloud_platform.Prelude.Tests.{if◌then◌else◌}
use multi_cloud_platform.Prelude.Lists.{length, elem, All}
use Prim.Native.Nat.{ℕ, zero, suc, ◌+◌, ◌≤◌, ◌<◌}
use mathlib.Core.Path.{◌≡◌, refl}
use mathlib.Core.Bool.{true, false}
use mathlib.Core.List.{List, [], ◌∷◌}
use native.Mathlib.Omega.{arith}

abbrev pub AllDifferent : List ℕ → Type 0
AllDifferent [] = Unit
AllDifferent (x ∷ xs) = (elem x xs ≡ false) × AllDifferent xs

-- How many of the numbers s, s + 1, …, s + n - 1 are in the list.
hits : List ℕ → ℕ → ℕ → ℕ
hits xs zero s = 0
hits xs (suc n) s = (if elem s xs then 1 else 0) + hits xs n (s + 1)

hits-below : (x : ℕ) (xs : List ℕ) (n s : ℕ) → x < s → hits (x ∷ xs) n s ≡ hits xs n s
unfolding hits
hits-below x xs zero s h = refl
hits-below x xs (suc n) s h = ground (arith, hits-below x xs n (s + 1))

hits-cons :
    (x : ℕ) (xs : List ℕ) (n s : ℕ)
    → elem x xs ≡ false
    → s ≤ x
    → x < s + n
    → hits (x ∷ xs) n s ≡ suc (hits xs n s)
unfolding hits
hits-cons x xs zero s h p q = absurd (omega arith)
hits-cons x xs (suc n) s h p q =
    ground (arith, hits-cons x xs n (s + 1) h, hits-below x xs n (s + 1))

hits-nil : (n s : ℕ) → hits [] n s ≡ 0
unfolding hits
hits-nil zero s = refl
hits-nil (suc n) s = omega (arith, hits-nil n (s + 1))

length-eq-hits :
    (xs : List ℕ) (n s : ℕ)
    → AllDifferent xs
    → All (λ x. (s ≤ x) × (x < s + n)) xs
    → length xs ≡ hits xs n s
length-eq-hits [] n s h k = omega (arith, hits-nil n s)
length-eq-hits (x ∷ xs) n s (h, hs) ((p, q), ks) =
    omega (arith, length-eq-hits xs n s hs ks, hits-cons x xs n s h p q)

hits-le : (xs : List ℕ) (n s : ℕ) → hits xs n s ≤ n
unfolding hits
hits-le xs zero s = omega arith
hits-le xs (suc n) s = ground (arith, hits-le xs n (s + 1))

hits-full : (xs : List ℕ) (n s k : ℕ) → hits xs n s ≡ n → s ≤ k → k < s + n → elem k xs ≡ true
unfolding hits
hits-full xs zero s k h p q = absurd (omega arith)
hits-full xs (suc n) s k h p q = ground (arith, hits-le xs n (s + 1), hits-full xs n (s + 1) k)

pub elem_of_full :
    (xs : List ℕ) (n s k : ℕ)
    → AllDifferent xs
    → All (λ x. (s ≤ x) × (x < s + n)) xs
    → length xs ≡ n
    → s ≤ k
    → k < s + n
    → elem k xs ≡ true
elem_of_full xs n s k h r full p q =
    hits-full xs n s k (omega (arith, length-eq-hits xs n s h r)) p q
