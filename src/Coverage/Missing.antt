-- ===== src/Coverage/Missing.antt =====
-- The days that `missing_days` lists, and which days may be judged.
use multi_cloud_platform.Prelude.{
  ℕ, zero, suc, ◌+◌, ◌-◌, ◌<◌, ◌≡◌, String, Bool, not, ◌&&◌, Option, none, some, List, [], ◌∷◌,
  arith, elem, All, ◌⊎◌, eq_iff,
}
use multi_cloud_platform.Calendar.{Date}
use multi_cloud_platform.Models.{Db}
use multi_cloud_platform.Coverage.{
  complete_range, resolve_basis, covered_days, missing_from, missing_days,
}
use multi_cloud_platform.Coverage.Days.{within}

elem-missing_from :
    (have : Date → Bool) (n : ℕ) (d k : Date)
    → elem k (missing_from have n d) ≡ (within d (d + n) k && not (have k))
unfolding missing_from
elem-missing_from have zero d k = ground arith
elem-missing_from have (suc n) d k = ground (arith, elem-missing_from have n (d + 1) k)

-- Exactly the days of [start, end) that are not covered are listed as missing.
pub missing_days_exact :
    (db : Db) (a : ℕ) (start end k : Date)
    → elem k (missing_days db a start end)
      ≡ (within start end k && not (covered_days db a start end k))
unfolding missing_days
missing_days_exact db a start end k =
    ground (arith, elem-missing_from (covered_days db a start end) (end - start) start k)

-- The days are listed in rising order, each once.
abbrev pub IsRising : List Date → Type 0
IsRising [] = Unit
IsRising (d ∷ ds) = All (λ e. d < e) ds × IsRising ds

missing_from_above :
    (have : Date → Bool) (n : ℕ) (d b : Date) → b < d → All (λ e. b < e) (missing_from have n d)
unfolding missing_from
missing_from_above have zero d b h = tt
missing_from_above have (suc n) d b h = ground (arith, missing_from_above have n (d + 1) b)

missing_from-IsRising : (have : Date → Bool) (n : ℕ) (d : Date) → IsRising (missing_from have n d)
unfolding missing_from
missing_from-IsRising have zero d = tt
missing_from-IsRising have (suc n) d =
    ground (arith, missing_from-IsRising have n (d + 1), missing_from_above have n (d + 1) d)

pub missing_days-IsRising :
    (db : Db) (a : ℕ) (start end : Date) → IsRising (missing_days db a start end)
unfolding missing_days
missing_days-IsRising db a start end =
    missing_from-IsRising (covered_days db a start end) (end - start) start

-- A recorded ground is read as `complete_range` only if it says so, or if nothing is recorded and
-- the provider is AWS.
pub resolve_basis_narrow :
    (raw : Option String) (provider : String)
    → resolve_basis raw provider ≡ complete_range
    → (raw ≡ some "complete_range") ⊎ ((raw ≡ none) × (provider ≡ "aws"))
unfolding resolve_basis
resolve_basis_narrow none provider h = ground (arith, eq_iff provider "aws")
resolve_basis_narrow (some raw) provider h =
    ground (arith, eq_iff raw "complete_range", eq_iff raw "observed_only")
