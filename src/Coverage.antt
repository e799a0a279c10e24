-- ===== src/Coverage.antt =====
-- backend/app/cost/coverage.py: on what ground a day of an account counts as collected.
pub mod Days
pub mod Missing
pub mod Ready
use multi_cloud_platform.Prelude.{
  ℕ, zero, suc, ◌+◌, ◌-◌, min, max, String, Bool, true, false, ◌&&◌, ◌||◌, Option, none, some, List,
  [], ◌∷◌, map, ltb, leb, ◌==◌, str_eq, if◌then◌else◌, elem, keep_if, all,
}
use multi_cloud_platform.Prelude.Sort.{sort_by}
use multi_cloud_platform.Prelude.Dict.{Dict, lookup, is_key, insert, erase}
use multi_cloud_platform.Calendar.{Date}
use multi_cloud_platform.Models.{CloudAccount, CloudAccountCost, CostIngestionRun, Db, is_success}

pub data Basis : Type 0 where
  complete_range observed_only : Basis

-- The texts of `ALLOWED_BASES`.
abbrev pub known_basis : String → Option Basis
known_basis raw =
    if str_eq raw "complete_range"
    then some complete_range
    else if str_eq raw "observed_only"
    then some observed_only
    else none

abbrev pub legacy_complete_range : String → Bool
legacy_complete_range provider = str_eq provider "aws"

unfoldable pub resolve_basis : Option String → String → Basis
resolve_basis (some raw) provider = elim (known_basis raw) [ some b ↦ b | none ↦ observed_only ]
resolve_basis none provider =
    if legacy_complete_range provider then complete_range else observed_only

abbrev pub provider_in : List CloudAccount → ℕ → String
provider_in [] a = ""
provider_in (x ∷ xs) a = if x.id == a then x.provider else provider_in xs a

-- The provider of an account, and the empty text for an account that is not there.
unfoldable pub provider_of : Db → ℕ → String
provider_of db a = provider_in db.accounts a

-- The days of the account's rows in [start, end).
unfoldable pub row_days : Db → ℕ → Date → Date → List Date
row_days db a start end =
    map (λ r. r.period_start)
      (keep_if (λ r. r.cloud_account_id == a && leb start r.period_start && ltb r.period_start end)
        db.costs)

-- `ORDER BY finished_at ASC NULLS LAST, id ASC`
abbrev pub saved_key : ℕ → CostIngestionRun → ℕ × ℕ
saved_key last r = (elim r.finished_at [ some t ↦ t | none ↦ last ], r.id)

-- A time after every `finished_at` of the list, which stands for NULL.
abbrev pub after_all : List CostIngestionRun → ℕ
after_all [] = 0
after_all (r ∷ rs) = max (elim r.finished_at [ some t ↦ t + 1 | none ↦ 0 ]) (after_all rs)

-- The successful runs of the account that reach into [start, end), in the order they were saved.
unfoldable pub saved_runs : Db → ℕ → Date → Date → List CostIngestionRun
saved_runs db a start end = sort_by (saved_key (after_all db.runs)) (
    keep_if
      (λ r.
        r.cloud_account_id == a
        && is_success r.status
        && ltb r.period_start end
        && ltb start r.period_end)
      db.runs)

-- What a saved run says of a day that it covers: `none` takes the day out.
abbrev pub verdict : Basis → Bool → Option Basis
verdict complete_range row = some complete_range
verdict observed_only row = if row then some observed_only else none

-- The body of the `while` loop of `day_basis_map`.
abbrev pub set_day : Basis → List Date → Date → Dict Basis → Dict Basis
set_day b rows d out = elim (verdict b (elem d rows)) [
  | some v ↦ insert d v out
  | none ↦ erase d out
]

-- The loop, with the number of days left.
unfoldable pub cover_days : Basis → List Date → ℕ → Date → Dict Basis → Dict Basis
cover_days b rows zero d out = out
cover_days b rows (suc n) d out = cover_days b rows n (d + 1) (set_day b rows d out)

-- The `for` loop over the saved runs.
unfoldable pub apply_runs :
    String → List Date → Date → Date → List CostIngestionRun → Dict Basis → Dict Basis
apply_runs provider rows start end [] out = out
apply_runs provider rows start end (r ∷ rs) out =
    let d = max r.period_start start in
    let stop = min r.period_end end in
    apply_runs provider rows start end rs
      (cover_days (resolve_basis r.coverage_basis provider) rows (stop - d) d out)

-- `out.setdefault(d, legacy)`
abbrev pub set_default : Basis → Date → Dict Basis → Dict Basis
set_default legacy d out = elim (lookup d out) [ some b ↦ out | none ↦ insert d legacy out ]

-- The `for` loop over the days of the rows.
unfoldable pub set_defaults : Basis → List Date → Dict Basis → Dict Basis
set_defaults legacy [] out = out
set_defaults legacy (d ∷ ds) out = set_defaults legacy ds (set_default legacy d out)

unfoldable pub day_basis_map : Db → ℕ → Date → Date → Dict Basis
day_basis_map db a start end =
    if leb end start
    then []
    else let provider = provider_of db a in
      let rows = row_days db a start end in
      set_defaults (resolve_basis none provider) rows
        (apply_runs provider rows start end (saved_runs db a start end) [])

-- `d in covered_days(...)`
unfoldable pub covered_days : Db → ℕ → Date → Date → Date → Bool
covered_days db a start end d = is_key (lookup d (day_basis_map db a start end))

abbrev pub is_complete_range : Basis → Bool
is_complete_range complete_range = true
is_complete_range observed_only = false

-- The days whose basis is `complete_range`.
unfoldable pub analysis_ready_days : Db → ℕ → Date → Date → List Date
analysis_ready_days db a start end =
    map (λ e. e.0) (keep_if (λ e. is_complete_range e.1) (day_basis_map db a start end))

abbrev pub summarize_bases : Dict Basis → Option Basis
summarize_bases [] = none
summarize_bases (e ∷ es) =
    if all (λ x. is_complete_range x.1) (e ∷ es) then some complete_range else some observed_only

unfoldable pub period_basis : Db → ℕ → Date → Date → Option Basis
period_basis db a start end = summarize_bases (day_basis_map db a start end)

-- The loop of `missing_days`, with the number of days left.
unfoldable pub missing_from : (Date → Bool) → ℕ → Date → List Date
missing_from have zero d = []
missing_from have (suc n) d =
    let rest = missing_from have n (d + 1) in if have d then rest else d ∷ rest

unfoldable pub missing_days : Db → ℕ → Date → Date → List Date
missing_days db a start end = missing_from (covered_days db a start end) (end - start) start
