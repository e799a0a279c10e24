-- ===== src/Review/Resolved.antt =====
-- The state of an item of the queue over its changes.
use multi_cloud_platform.Prelude.{
  ℕ, ◌≡◌, refl, sym, ◌⊎◌, inl, inr, Bool, true, false, not, ◌&&◌, Option, none, some, Bool-cases,
  find, ◌==◌, if◌then◌else◌, option-elim,
}
use mathlib.Core.Path.{subst}
use multi_cloud_platform.Prelude.Sort.{In}
use multi_cloud_platform.Prelude.Members.{map_if-In, find-In}
use multi_cloud_platform.Review.{
  Resolution, CostReviewItem, Queue, ReviewResult, refused, answered, ReviewPatch, is_resolved,
  or_old, or_option, Patched, unpatched, new_row, resolve_item, patch_item, store_patched,
  patch_review_item, already_resolved,
}

module _ {A : Type 0} where
  abbrev pub is_some : Option A → Bool
  is_some none = false
  is_some (some x) = true

-- The constraint of the table: an item has a resolution and a time exactly if it is resolved, but that one
-- that is not may have a resolution.
abbrev pub IsConsistent : CostReviewItem → Type 0
IsConsistent i =
    (is_some i.resolved_at ≡ is_resolved i.status)
    × ((is_resolved i.status ≡ false) ⊎ (is_some i.resolution ≡ true))

-- What a change keeps: an item that is resolved stays so, with the time at which it was.
abbrev pub Keeps : CostReviewItem → CostReviewItem → Type 0
Keeps old new =
    (new.id ≡ old.id)
    × (new.user_id ≡ old.user_id)
    × (new.source_key ≡ old.source_key)
    × ((is_resolved old.status ≡ false)
        ⊎ ((is_resolved new.status ≡ true) × (new.resolved_at ≡ old.resolved_at)))

abbrev Good : CostReviewItem → Patched → Type 0
Good i (unpatched e) = Unit
Good i (new_row new) = (IsConsistent i → IsConsistent new) × Keeps i new

resolve_item-Good :
    (now : ℕ) (p : ReviewPatch) (i : CostReviewItem) (r : Option Resolution)
    → Good i (resolve_item now p i r)
unfolding resolve_item
resolve_item-Good now p i none = tt
resolve_item-Good now p i (some r) = elim (Bool-cases (is_resolved i.status)) [
  | inl done ↦ rw done (λ (t, _). (t, inr refl), (refl, refl, refl, inr (refl, refl)))
  | inr waiting ↦ rw waiting (λ h. (refl, inr refl), (refl, refl, refl, inl refl))
]

patch_item-Good : (now : ℕ) (p : ReviewPatch) (i : CostReviewItem) → Good i (patch_item now p i)
unfolding patch_item
patch_item-Good now p i =
    by (is_resolved i.status) refl (is_resolved (or_old p.status i.status)) refl
  where
    by :
        (b : Bool)
        → is_resolved i.status ≡ b
        → (c : Bool) → is_resolved (or_old p.status i.status) ≡ c
        → Good i (
            if b && not c
            then unpatched already_resolved
            else if c
            then resolve_item now p i (or_option p.resolution i.resolution)
            else new_row (record i {
              status = or_old p.status i.status;
              resolution = or_option p.resolution i.resolution;
              resolved_at = none;
              note = or_option p.note i.note;
            }))
    by true e true f = resolve_item-Good now p i (or_option p.resolution i.resolution)
    by false e true f = resolve_item-Good now p i (or_option p.resolution i.resolution)
    by true e false f = tt
    by false e false f = (λ h. (sym f, inl f), (refl, refl, refl, inl e))

-- Each item comes from one of before that it keeps, and meets the constraint if that did.
abbrev pub Reviewed : Queue → ReviewResult → Type 0
Reviewed q (refused e) = Unit
Reviewed q (answered after) =
    (y : CostReviewItem)
    → In y after.items
    → (x : CostReviewItem) × In x q.items × Keeps x y × (IsConsistent x → IsConsistent y)

Keeps-status : (x : CostReviewItem) (b : Bool) → is_resolved x.status ≡ b → Keeps x x
Keeps-status x true e = (refl, refl, refl, inr (e, refl))
Keeps-status x false e = (refl, refl, refl, inl e)

Keeps-self : (x : CostReviewItem) → Keeps x x
Keeps-self x = Keeps-status x (is_resolved x.status) refl

store_patched-Reviewed :
    (q : Queue) (id : ℕ) (i : CostReviewItem) (p : Patched)
    → In i q.items
    → Good i p
    → Reviewed q (store_patched q id p)
unfolding store_patched
store_patched-Reviewed q id i (unpatched e) j g = tt
store_patched-Reviewed q id i (new_row new) j (consistent, keeps) = λ y k.
    let (x, l, how) = map_if-In (λ z. z.id == id) (λ z. new) y q.items k in
    elim how [
      | inl (same, e) ↦ (
        i,
        j,
        subst (Keeps i) (sym e) keeps,
        subst (λ z. IsConsistent i → IsConsistent z) (sym e) consistent,
      )
      | inr (other, e) ↦ (
        x,
        l,
        subst (Keeps x) (sym e) (Keeps-self x),
        subst (λ z. IsConsistent x → IsConsistent z) (sym e) (λ c. c),
      )
    ]

-- A change of an item keeps the constraint on resolved items, and an item that is resolved stays resolved,
-- with its time.
pub patch_review_item-Reviewed :
    (q : Queue) (user now id : ℕ) (p : ReviewPatch) → Reviewed q (patch_review_item q user now id p)
unfolding patch_review_item
patch_review_item-Reviewed q user now id p =
    option-elim (Reviewed q) (find (λ i. i.id == id && i.user_id == user) q.items) _ _ tt (λ i e.
      store_patched-Reviewed q id i (patch_item now p i)
        (find-In (λ i. i.id == id && i.user_id == user) i q.items e).0 (patch_item-Good now p i))
