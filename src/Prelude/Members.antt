-- ===== src/Prelude/Members.antt =====
-- Which elements `keep_if`, `sort_by`, `max_by` and `min_by` keep and choose.
use multi_cloud_platform.Prelude.Tests.{if◌then◌else◌, Bool-cases}
use multi_cloud_platform.Prelude.Lists.{All, any, find, keep_if}
use multi_cloud_platform.Prelude.Sort.{
  In, key_ltb, insert_by, sort_by, max_from, max_by, min_from, min_by,
}
use Prim.Native.Nat.{ℕ}
use mathlib.Core.Path.{◌≡◌, refl, sym, subst}
use mathlib.Core.Logic.{◌⊎◌, inl, inr}
use mathlib.Core.Bool.{Bool, true, false}
use mathlib.Core.Option.{none, some, some-injective}
use mathlib.Core.List.{List, [], ◌∷◌, ◌++◌, map}
use native.Mathlib.Omega.{arith}

module _ {A : Type 0} where
  pub In-keep_if : (p : A → Bool) (x : A) (xs : List A) → In x xs → p x ≡ true → In x (keep_if p xs)
  In-keep_if p x [] h e = h
  In-keep_if p x (y ∷ ys) (inl same) e = ground (arith, same)
  In-keep_if p x (y ∷ ys) (inr later) e = ground (arith, In-keep_if p x ys later e)

  pub keep_if-In :
      (p : A → Bool) (x : A) (xs : List A) → In x (keep_if p xs) → In x xs × (p x ≡ true)
  keep_if-In p x [] h = absurd h
  keep_if-In p x (y ∷ ys) h = ground (arith, keep_if-In p x ys)

  pub All-keep_if {κ} :
      (P : A → Type κ) (p : A → Bool) (xs : List A) → All P xs → All P (keep_if p xs)
  All-keep_if P p [] h = tt
  All-keep_if P p (x ∷ xs) (h, hs) = ground (arith, All-keep_if P p xs hs)

  pub All-In {κ} : (P : A → Type κ) (x : A) (xs : List A) → All P xs → In x xs → P x
  All-In P x [] h i = absurd i
  All-In P x (y ∷ ys) (h, hs) (inl e) = subst P (sym e) h
  All-In P x (y ∷ ys) (h, hs) (inr i) = All-In P x ys hs i

  pub In-All {κ} : (P : A → Type κ) (xs : List A) → ((x : A) → In x xs → P x) → All P xs
  In-All P [] h = tt
  In-All P (x ∷ xs) h = (h x (inl refl), In-All P xs (λ y i. h y (inr i)))

  pub find-In : (p : A → Bool) (x : A) (xs : List A) → find p xs ≡ some x → In x xs × (p x ≡ true)
  find-In p x [] h = cc
  find-In p x (y ∷ ys) h = ground (arith, find-In p x ys)

  pub find-none : (p : A → Bool) (x : A) (xs : List A) → find p xs ≡ none → In x xs → p x ≡ false
  find-none p x [] h i = absurd i
  find-none p x (y ∷ ys) h (inl e) = rw e (ground arith)
  find-none p x (y ∷ ys) h (inr i) = find-none p x ys (ground arith) i

  pub any-false : (p : A → Bool) (x : A) (xs : List A) → any p xs ≡ false → In x xs → p x ≡ false
  any-false p x [] h i = absurd i
  any-false p x (y ∷ ys) h (inl e) = rw e (ground arith)
  any-false p x (y ∷ ys) h (inr i) = any-false p x ys (ground arith) i

module _ {A : Type 0} (key : A → ℕ × ℕ) where
  pub In-insert_by : (x y : A) (ys : List A) → (x ≡ y) ⊎ In x ys → In x (insert_by key y ys)
  unfolding insert_by
  In-insert_by x y [] h = h
  In-insert_by x y (z ∷ zs) h = ground (arith, In-insert_by x y zs)

  pub insert_by-In : (x y : A) (ys : List A) → In x (insert_by key y ys) → (x ≡ y) ⊎ In x ys
  unfolding insert_by
  insert_by-In x y [] h = h
  insert_by-In x y (z ∷ zs) h = ground (arith, insert_by-In x y zs)

  pub All-insert_by {κ} :
      (P : A → Type κ) (x : A) (ys : List A) → P x → All P ys → All P (insert_by key x ys)
  unfolding insert_by
  All-insert_by P x [] h hs = (h, tt)
  All-insert_by P x (z ∷ zs) h (k, ks) = ground (arith, All-insert_by P x zs h ks)

  pub All-sort_by {κ} : (P : A → Type κ) (xs : List A) → All P xs → All P (sort_by key xs)
  unfolding sort_by
  All-sort_by P [] h = tt
  All-sort_by P (x ∷ xs) (h, hs) = All-insert_by P x (sort_by key xs) h (All-sort_by P xs hs)

  pub In-sort_by : (x : A) (xs : List A) → In x xs → In x (sort_by key xs)
  unfolding sort_by
  In-sort_by x [] h = h
  In-sort_by x (y ∷ ys) (inl e) = In-insert_by x y (sort_by key ys) (inl e)
  In-sort_by x (y ∷ ys) (inr i) = In-insert_by x y (sort_by key ys) (inr (In-sort_by x ys i))

  pub sort_by-In : (x : A) (xs : List A) → In x (sort_by key xs) → In x xs
  unfolding sort_by
  sort_by-In x [] h = h
  sort_by-In x (y ∷ ys) h = elim (insert_by-In x y (sort_by key ys) h) [
    | inl e ↦ inl e
    | inr i ↦ inr (sort_by-In x ys i)
  ]

  pub max_from-In : (best : A) (xs : List A) → In (max_from key best xs) (best ∷ xs)
  unfolding max_from
  max_from-In best [] = inl refl
  max_from-In best (x ∷ xs) =
      ground (arith, max_from-In (if key_ltb (key best) (key x) then x else best) xs)

  pub min_from-In : (best : A) (xs : List A) → In (min_from key best xs) (best ∷ xs)
  unfolding min_from
  min_from-In best [] = inl refl
  min_from-In best (x ∷ xs) =
      ground (arith, min_from-In (if key_ltb (key x) (key best) then x else best) xs)

  pub max_by-In : (x : A) (xs : List A) → max_by key xs ≡ some x → In x xs
  unfolding max_by
  max_by-In x [] h = cc
  max_by-In x (y ∷ ys) h = subst (λ z. In z (y ∷ ys)) (some-injective _ _ h) (max_from-In y ys)

  pub min_by-In : (x : A) (xs : List A) → min_by key xs ≡ some x → In x xs
  unfolding min_by
  min_by-In x [] h = cc
  min_by-In x (y ∷ ys) h = subst (λ z. In z (y ∷ ys)) (some-injective _ _ h) (min_from-In y ys)

-- A map that changes only the elements of a test.
module _ {A : Type 0} (p : A → Bool) (f : A → A) where
  abbrev pub change_if : A → A
  change_if r = if p r then f r else r

  pub map_if-In :
      (x : A) (rs : List A)
      → In x (map change_if rs)
      → (y : A) × In y rs × (((p y ≡ true) × (x ≡ f y)) ⊎ ((p y ≡ false) × (x ≡ y)))
  map_if-In x [] i = absurd i
  map_if-In x (r ∷ rs) (inl e) = elim (Bool-cases (p r)) [
    | inl same ↦ (r, inl refl, inl (same, rw same at e))
    | inr other ↦ (r, inl refl, inr (other, rw other at e))
  ]
  map_if-In x (r ∷ rs) (inr i) = let (y, j, how) = map_if-In x rs i in (y, inr j, how)

  pub In-map_if_other : (x : A) (rs : List A) → p x ≡ false → In x rs → In x (map change_if rs)
  In-map_if_other x [] n i = absurd i
  In-map_if_other x (r ∷ rs) n (inl e) = inl (rw (sym e) (rw n refl))
  In-map_if_other x (r ∷ rs) n (inr i) = inr (In-map_if_other x rs n i)

  pub In-map_if_same : (x : A) (rs : List A) → p x ≡ true → In x rs → In (f x) (map change_if rs)
  In-map_if_same x [] n i = absurd i
  In-map_if_same x (r ∷ rs) n (inl e) = inl (rw (sym e) (rw n refl))
  In-map_if_same x (r ∷ rs) n (inr i) = inr (In-map_if_same x rs n i)

module _ {A : Type 0} where
  pub append-In : (x : A) (xs ys : List A) → In x (xs ++ ys) → In x xs ⊎ In x ys
  append-In x [] ys i = inr i
  append-In x (y ∷ xs) ys (inl e) = inl (inl e)
  append-In x (y ∷ xs) ys (inr i) = elim (append-In x xs ys i) [
    | inl j ↦ inl (inr j)
    | inr j ↦ inr j
  ]

  pub In-append_left : (x : A) (xs ys : List A) → In x xs → In x (xs ++ ys)
  In-append_left x [] ys i = absurd i
  In-append_left x (y ∷ xs) ys (inl e) = inl e
  In-append_left x (y ∷ xs) ys (inr i) = inr (In-append_left x xs ys i)

  pub In-append_right : (x : A) (xs ys : List A) → In x ys → In x (xs ++ ys)
  In-append_right x [] ys i = i
  In-append_right x (y ∷ xs) ys i = inr (In-append_right x xs ys i)

  pub All-append {κ} : (P : A → Type κ) (xs ys : List A) → All P xs → All P ys → All P (xs ++ ys)
  All-append P [] ys h k = k
  All-append P (x ∷ xs) ys (h, hs) k = (h, All-append P xs ys hs k)
