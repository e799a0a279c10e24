-- ===== src/Ingest/Keys.antt =====
-- The UNIQUE constraint of the table of costs, over deletions and insertions.
use multi_cloud_platform.Prelude.{
  ◌≡◌, sym, inl, inr, Bool, false, List, [], ◌∷◌, ◌++◌, any, arith, Bool-cases, keep_if, All,
  eq_iff,
}
use multi_cloud_platform.Prelude.Members.{All-append, All-keep_if, In-All, any-false}
use multi_cloud_platform.Models.{CloudAccountCost}
use multi_cloud_platform.Ingest.{is_same_key, has_clash}

-- Rows of different providers or of different keys.
abbrev pub Differ : CloudAccountCost → CloudAccountCost → Type 0
Differ r x = (r.provider ≡ x.provider) × (r.source_record_key ≡ x.source_record_key) → ⊥

-- The UNIQUE constraint of the table.
abbrev pub UniqueKeys : List CloudAccountCost → Type 0
UniqueKeys [] = Unit
UniqueKeys (r ∷ rs) = All (Differ r) rs × UniqueKeys rs

other_key : (r x : CloudAccountCost) → is_same_key r x ≡ false → Differ r x
other_key r x h (p, k) =
    let a = (eq_iff r.provider x.provider).1 p in
    let b = (eq_iff r.source_record_key x.source_record_key).1 k in ground arith

other_keys :
    (r : CloudAccountCost) (xs : List CloudAccountCost)
    → any (is_same_key r) xs ≡ false
    → All (Differ r) xs
other_keys r xs h = In-All (Differ r) xs (λ x i. other_key r x (any-false (is_same_key r) x xs h i))

pub UniqueKeys-keep_if :
    (p : CloudAccountCost → Bool) (xs : List CloudAccountCost)
    → UniqueKeys xs
    → UniqueKeys (keep_if p xs)
UniqueKeys-keep_if p [] h = tt
UniqueKeys-keep_if p (x ∷ xs) (h, hs) = elim (Bool-cases (p x)) [
  | inl on ↦ rw on (All-keep_if (Differ x) p xs h, UniqueKeys-keep_if p xs hs)
  | inr off ↦ rw off (UniqueKeys-keep_if p xs hs)
]

-- A row that is put in, and one that was there.
abbrev pub Apart : List CloudAccountCost → List CloudAccountCost → Type 0
Apart new kept = All (λ r. All (Differ r) kept) new

pub no_clash :
    (new kept : List CloudAccountCost)
    → has_clash new kept ≡ false
    → UniqueKeys new × Apart new kept
unfolding has_clash
no_clash [] kept h = (tt, tt)
no_clash (r ∷ rs) kept h =
    let (own, apart) = no_clash rs kept (ground arith) in
    ((other_keys r rs (ground arith), own), (other_keys r kept (ground arith), apart))

flipped :
    (k : CloudAccountCost) (ks new : List CloudAccountCost)
    → Apart new (k ∷ ks)
    → All (Differ k) new × Apart new ks
flipped k ks [] h = (tt, tt)
flipped k ks (r ∷ rs) ((d, ds), h) =
    let (first, rest) = flipped k ks rs h in ((λ (p, e). d (sym p, sym e), first), (ds, rest))

pub UniqueKeys-append :
    (kept new : List CloudAccountCost)
    → UniqueKeys kept
    → UniqueKeys new
    → Apart new kept
    → UniqueKeys (kept ++ new)
UniqueKeys-append [] new h own apart = own
UniqueKeys-append (k ∷ ks) new (h, hs) own apart =
    let (first, rest) = flipped k ks new apart in
    (All-append (Differ k) ks new h first, UniqueKeys-append ks new hs own rest)
