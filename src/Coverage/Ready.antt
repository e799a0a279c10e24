-- ===== src/Coverage/Ready.antt =====
-- An account that is ready for judgement on every day of a period has a ground for each of its days.
use multi_cloud_platform.Prelude.{
  ℕ, zero, suc, ◌+◌, ◌-◌, ◌≤◌, ◌<◌, min, max, ◌≡◌, refl, String, Bool, true, false, ◌&&◌, Option,
  none, some, List, [], ◌∷◌, map, arith, ltb, leb, ◌==◌, elem, All, keep_if, length, inl, inr, ◌⊎◌,
  Bool-cases,
}
use multi_cloud_platform.Prelude.Dict.{Dict, lookup, insert, erase, lookup-erase}
use multi_cloud_platform.Prelude.Counting.{AllDifferent, elem_of_full}
use multi_cloud_platform.Calendar.{Date}
use multi_cloud_platform.Models.{CloudAccountCost, CostIngestionRun, Db}
use multi_cloud_platform.Coverage.{
  Basis, complete_range, observed_only, resolve_basis, row_days, set_day, cover_days, apply_runs,
  set_default, set_defaults, day_basis_map, is_complete_range, analysis_ready_days,
}

-- No key of the dict is listed twice, and all keys lie in [start, end).
abbrev pub IsDayMap : Date → Date → Dict Basis → Type 0
IsDayMap start end [] = Unit
IsDayMap start end ((k, v) ∷ out) =
    (lookup k out ≡ none) × (start ≤ k) × (k < end) × IsDayMap start end out

erase-IsDayMap :
    (start end k : Date) (out : Dict Basis)
    → IsDayMap start end out
    → IsDayMap start end (erase k out)
erase-IsDayMap start end k [] i = tt
erase-IsDayMap start end k ((j, w) ∷ out) i =
    ground (arith, erase-IsDayMap start end k out i.3, lookup-erase out k j)

insert-IsDayMap :
    (start end k : Date) (v : Basis) (out : Dict Basis)
    → start ≤ k
    → k < end
    → IsDayMap start end out
    → IsDayMap start end (insert k v out)
insert-IsDayMap start end k v out h p i =
    (ground (arith, lookup-erase out k k), h, p, erase-IsDayMap start end k out i)

set_day-IsDayMap :
    (start end : Date) (b : Basis) (rows : List Date) (d : Date) (out : Dict Basis)
    → start ≤ d
    → d < end
    → IsDayMap start end out
    → IsDayMap start end (set_day b rows d out)
set_day-IsDayMap start end complete_range rows d out h p i =
    insert-IsDayMap start end d complete_range out h p i
set_day-IsDayMap start end observed_only rows d out h p i =
    ground
      (arith, insert-IsDayMap start end d observed_only out h p i, erase-IsDayMap start end d out i)

cover_days-IsDayMap :
    (start end : Date) (b : Basis) (rows : List Date) (n : ℕ) (d : Date) (out : Dict Basis)
    → (n ≡ 0) ⊎ ((start ≤ d) × (d + n ≤ end))
    → IsDayMap start end out
    → IsDayMap start end (cover_days b rows n d out)
unfolding cover_days
cover_days-IsDayMap start end b rows zero d out h i = i
cover_days-IsDayMap start end b rows (suc n) d out h i =
    cover_days-IsDayMap start end b rows n (d + 1) (set_day b rows d out) (inr (omega arith))
      (set_day-IsDayMap start end b rows d out (omega arith) (omega arith) i)

apply_runs-IsDayMap :
    (provider : String) (rows : List Date) (start end : Date) (rs : List CostIngestionRun)
    (out : Dict Basis)
    → IsDayMap start end out
    → IsDayMap start end (apply_runs provider rows start end rs out)
unfolding apply_runs
apply_runs-IsDayMap provider rows start end [] out i = i
apply_runs-IsDayMap provider rows start end (r ∷ rs) out i =
    let d = max r.period_start start in
    let n = min r.period_end end - d in
    apply_runs-IsDayMap provider rows start end rs _ (
      cover_days-IsDayMap start end (resolve_basis r.coverage_basis provider) rows n d out
        (omega arith) i)

set_defaults-IsDayMap :
    (start end : Date) (legacy : Basis) (rows : List Date) (out : Dict Basis)
    → All (λ d. (start ≤ d) × (d < end)) rows
    → IsDayMap start end out
    → IsDayMap start end (set_defaults legacy rows out)
unfolding set_defaults
set_defaults-IsDayMap start end legacy [] out h i = i
set_defaults-IsDayMap start end legacy (d ∷ ds) out ((p, q), hs) i =
    set_defaults-IsDayMap start end legacy ds (set_default legacy d out) hs
      (ground (arith, insert-IsDayMap start end d legacy out p q i))

rows_in_range :
    (a : ℕ) (start end : Date) (costs : List CloudAccountCost)
    → All
        (λ d. (start ≤ d) × (d < end))
        (map
          (λ r. r.period_start)
          (keep_if
            (λ r. r.cloud_account_id == a && leb start r.period_start && ltb r.period_start end)
            costs))
rows_in_range a start end [] = tt
rows_in_range a start end (r ∷ rs) = ground (arith, rows_in_range a start end rs)

day_basis_map-IsDayMap :
    (db : Db) (a : ℕ) (start end : Date) → IsDayMap start end (day_basis_map db a start end)
unfolding day_basis_map row_days
day_basis_map-IsDayMap db a start end = elim (Bool-cases (leb end start)) [
  | inl empty ↦ rw empty tt
  | inr some_days ↦ rw some_days (
      set_defaults-IsDayMap start end _ _ _ (rows_in_range a start end db.costs)
        (apply_runs-IsDayMap _ _ start end _ [] tt))
]

-- The days of the map whose basis is `complete_range`.
abbrev ready : Dict Basis → List Date
ready out = map (λ e. e.0) (keep_if (λ e. is_complete_range e.1) out)

abbrev is_ready : Option Basis → Bool
is_ready none = false
is_ready (some b) = is_complete_range b

elem-ready :
    (start end k : Date) (out : Dict Basis)
    → IsDayMap start end out
    → elem k (ready out) ≡ is_ready (lookup k out)
elem-ready start end k [] i = refl
elem-ready start end k ((j, v) ∷ out) i = ground (arith, elem-ready start end k out i.3)

ready-AllDifferent :
    (start end : Date) (out : Dict Basis) → IsDayMap start end out → AllDifferent (ready out)
ready-AllDifferent start end [] i = tt
ready-AllDifferent start end ((j, v) ∷ out) i =
    ground (arith, ready-AllDifferent start end out i.3, elem-ready start end j out i.3)

ready_in_range :
    (start n : Date) (out : Dict Basis)
    → IsDayMap start (start + n) out
    → All (λ x. (start ≤ x) × (x < start + n)) (ready out)
ready_in_range start n [] i = tt
ready_in_range start n ((j, v) ∷ out) i = ground (arith, ready_in_range start n out i.3)

complete_of_ready : (o : Option Basis) → is_ready o ≡ true → o ≡ some complete_range
complete_of_ready none h = cc
complete_of_ready (some complete_range) h = refl
complete_of_ready (some observed_only) h = cc

-- If `analysis_ready_days` has as many days as the period, each day of the period has the ground
-- `complete_range`.
pub every_day_ready :
    (db : Db) (a : ℕ) (start end k : Date)
    → length (analysis_ready_days db a start end) ≡ end - start
    → start ≤ k
    → k < end
    → lookup k (day_basis_map db a start end) ≡ some complete_range
unfolding analysis_ready_days
every_day_ready db a start end k full p q =
    let out = day_basis_map db a start end in
    let n = end - start in
    let e : start + n ≡ end = omega arith in
    let i = day_basis_map-IsDayMap db a start end in
    let here =
      elem_of_full (ready out) n start k (ready-AllDifferent start end out i)
        (ready_in_range start n out (rw e i)) full p (omega arith) in
    complete_of_ready (lookup k out) (ground (arith, elem-ready start end k out i))
