-- ===== src/Coverage/Days.antt =====
-- What `day_basis_map` says of one day: the latest saved run that covers the day decides.
use multi_cloud_platform.Prelude.{
  ℕ, zero, suc, ◌+◌, ◌-◌, ◌≤◌, ◌<◌, min, max, ◌≡◌, refl, String, Bool, false, ◌&&◌, Option, none,
  some, List, [], ◌∷◌, arith, ltb, leb, ◌==◌, if◌then◌else◌, elem,
}
use multi_cloud_platform.Prelude.Dict.{Dict, lookup, lookup-insert, lookup-erase}
use multi_cloud_platform.Calendar.{Date}
use multi_cloud_platform.Models.{CostIngestionRun, Db}
use multi_cloud_platform.Coverage.{
  Basis, complete_range, observed_only, resolve_basis, provider_of, row_days, saved_runs, verdict,
  set_day, cover_days, apply_runs, set_default, set_defaults, day_basis_map,
}

abbrev pub within : Date → Date → Date → Bool
within s e d = leb s d && ltb d e

lookup-set_day :
    (b : Basis) (rows : List Date) (d k : Date) (out : Dict Basis)
    → lookup k (set_day b rows d out) ≡ (if k == d then verdict b (elem d rows) else lookup k out)
lookup-set_day complete_range rows d k out = lookup-insert out d k complete_range
lookup-set_day observed_only rows d k out =
    ground (arith, lookup-insert out d k observed_only, lookup-erase out d k)

lookup-cover_days :
    (b : Basis) (rows : List Date) (n : ℕ) (d k : Date) (out : Dict Basis)
    → lookup k (cover_days b rows n d out)
      ≡ (if within d (d + n) k then verdict b (elem k rows) else lookup k out)
unfolding cover_days
lookup-cover_days b rows zero d k out = ground arith
lookup-cover_days b rows (suc n) d k out = ground (
  arith,
  lookup-cover_days b rows n (d + 1) k (set_day b rows d out),
  lookup-set_day b rows d k out,
)

-- Within [start, end) a run covers the days of its own period.
clipped :
    (ps pe start end k : Date)
    → start ≤ k
    → k < end
    → within (max ps start) (max ps start + (min pe end - max ps start)) k ≡ within ps pe k
clipped ps pe start end k p q = ground arith

-- The last run of the list that covers the day, which is the latest saved one.
abbrev pub latest_covering : Date → List CostIngestionRun → Option CostIngestionRun
latest_covering k [] = none
latest_covering k (r ∷ rs) = elim (latest_covering k rs) [
  | some later ↦ some later
  | none ↦ if within r.period_start r.period_end k then some r else none
]

abbrev pub verdict_of : String → Bool → Option CostIngestionRun → Option Basis → Option Basis
verdict_of provider row (some r) old = verdict (resolve_basis r.coverage_basis provider) row
verdict_of provider row none old = old

lookup-apply_runs :
    (provider : String) (rows : List Date) (start end : Date) (rs : List CostIngestionRun)
    (k : Date) (out : Dict Basis)
    → start ≤ k
    → k < end
    → lookup k (apply_runs provider rows start end rs out)
      ≡ verdict_of provider (elem k rows) (latest_covering k rs) (lookup k out)
unfolding apply_runs
lookup-apply_runs provider rows start end [] k out p q = refl
lookup-apply_runs provider rows start end (r ∷ rs) k out p q =
    let basis = resolve_basis r.coverage_basis provider in
    let d = max r.period_start start in
    let n = min r.period_end end - d in
    ground (
      arith,
      lookup-apply_runs provider rows start end rs k (cover_days basis rows n d out) p q,
      lookup-cover_days basis rows n d k out,
      clipped r.period_start r.period_end start end k p q,
    )

abbrev or_default : Bool → Basis → Option Basis → Option Basis
or_default row legacy (some b) = some b
or_default row legacy none = if row then some legacy else none

lookup-set_default :
    (legacy : Basis) (d k : Date) (out : Dict Basis)
    → lookup k (set_default legacy d out) ≡ or_default (k == d) legacy (lookup k out)
lookup-set_default legacy d k out = ground (arith, lookup-insert out d k legacy)

lookup-set_defaults :
    (legacy : Basis) (rows : List Date) (k : Date) (out : Dict Basis)
    → lookup k (set_defaults legacy rows out) ≡ or_default (elem k rows) legacy (lookup k out)
unfolding set_defaults
lookup-set_defaults legacy [] k out = ground arith
lookup-set_defaults legacy (d ∷ ds) k out = ground (
  arith,
  lookup-set_defaults legacy ds k (set_default legacy d out),
  lookup-set_default legacy d k out,
)

-- A day that no run covers counts by its rows alone.
abbrev pub day_basis : String → Bool → Option CostIngestionRun → Option Basis
day_basis provider row (some r) = verdict (resolve_basis r.coverage_basis provider) row
day_basis provider row none = if row then some (resolve_basis none provider) else none

day_basis-or_default :
    (provider : String) (row : Bool) (o : Option CostIngestionRun)
    → or_default row (resolve_basis none provider) (verdict_of provider row o none)
      ≡ day_basis provider row o
day_basis-or_default provider row none = refl
day_basis-or_default provider row (some r) = ground arith

-- For a day of [start, end), `day_basis_map` has the verdict of the latest saved successful run that
-- covers the day; where none does, a row counts by the provider's legacy rule, and a day without a
-- row is not observed.
pub day_basis_map_lem :
    (db : Db) (a : ℕ) (start end k : Date)
    → start ≤ k
    → k < end
    → lookup k (day_basis_map db a start end)
      ≡ day_basis
          (provider_of db a)
          (elem k (row_days db a start end))
          (latest_covering k (saved_runs db a start end))
unfolding day_basis_map
day_basis_map_lem db a start end k p q =
    let provider = provider_of db a in
    let rows = row_days db a start end in
    let runs = saved_runs db a start end in
    let some_days : leb end start ≡ false = ground arith in
    rw
      (
        some_days,
        lookup-set_defaults (resolve_basis none provider) rows k
            (apply_runs provider rows start end runs []),
        lookup-apply_runs provider rows start end runs k [] p q,
      )
      (day_basis-or_default provider (elem k rows) (latest_covering k runs))
