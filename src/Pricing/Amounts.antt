-- ===== src/Pricing/Amounts.antt =====
-- The estimates that the price tables can give.
use multi_cloud_platform.Prelude.{
  ℕ, ◌≤◌, ◌≡◌, refl, Bool, true, ◌&&◌, ◌||◌, String, Option, none, some, [], ◌∷◌, arith, str_eq,
  if-elim, all, leb,
}
use mathlib.Core.Path.{subst}
use mathlib.Core.Option.{some-injective}
use multi_cloud_platform.Prelude.Rounding.{round_half_even}
use multi_cloud_platform.Prelude.Texts.{TextDict, get, get_opt, or_empty}
use multi_cloud_platform.Pricing.{
  Prices, compute_hourly_usd, aws_rds_hourly_usd, db_hourly_usd_by_engine, hourly_to_monthly,
  monthly, table_hourly, estimate_database, estimate_monthly_cost_usd,
}

module _ {V : Type 0} (p : V → Bool) where
  -- What a test says of every value of a dict, it says of a value that is found.
  abbrev all_values : TextDict V → Bool
  all_values d = all (λ pair. p pair.1) d

  abbrev of_some : Option V → Bool
  of_some none = true
  of_some (some v) = p v

  get-of_some : (d : TextDict V) (k : String) → all_values d ≡ true → of_some (get d k) ≡ true
  get-of_some [] k h = refl
  get-of_some ((key, v) ∷ d) k h =
      if-elim (λ o. of_some o ≡ true) (str_eq key k) _ _ (ground arith)
        (get-of_some d k (ground arith))

  get_opt-of_some :
      (d : TextDict V) (k : Option String) → all_values d ≡ true → of_some (get_opt d k) ≡ true
  get_opt-of_some d none h = refl
  get_opt-of_some d (some k) h = get-of_some d k h

-- An hour's price whose month is in the range.
abbrev in_range : ℕ → Bool
in_range hourly = leb 4960000 (hourly_to_monthly hourly) && leb (hourly_to_monthly hourly) 163590000

abbrev prices_in_range : Prices → Bool
prices_in_range d = all_values in_range d

abbrev table_in_range : TextDict Prices → Bool
table_in_range d = all_values prices_in_range d

-- A dict that is missing is an empty one.
or_empty-all :
    {V : Type 0} (p : V → Bool) (o : Option (TextDict V))
    → of_some (λ d. all_values p d) o ≡ true
    → all_values p (or_empty o) ≡ true
or_empty-all p none h = refl
or_empty-all p (some d) h = h

compute_in_range : all_values (λ d. all_values table_in_range d) compute_hourly_usd ≡ true
unfolding compute_hourly_usd hourly_to_monthly round_half_even
compute_in_range = refl

rds_in_range : table_in_range aws_rds_hourly_usd ≡ true
unfolding aws_rds_hourly_usd hourly_to_monthly round_half_even
rds_in_range = refl

databases_in_range : all_values table_in_range db_hourly_usd_by_engine ≡ true
unfolding db_hourly_usd_by_engine hourly_to_monthly round_half_even
databases_in_range = refl

table_hourly-in_range :
    (table : Option (TextDict Prices)) (sku region : Option String)
    → of_some table_in_range table ≡ true
    → of_some in_range (table_hourly table sku region) ≡ true
unfolding table_hourly
table_hourly-in_range table sku region h =
    get_opt-of_some in_range (or_empty (get_opt (or_empty table) sku)) region (
      or_empty-all in_range (get_opt (or_empty table) sku) (
        get_opt-of_some prices_in_range (or_empty table) sku
          (or_empty-all prices_in_range table h)))

monthly-bounds :
    (h : Option ℕ) (x : ℕ)
    → of_some in_range h ≡ true
    → monthly h ≡ some x
    → (4960000 ≤ x) × (x ≤ 163590000)
monthly-bounds none x h e = cc
monthly-bounds (some y) x h e =
    let same = some-injective _ _ e in
    subst (λ z. (4960000 ≤ z) × (z ≤ 163590000)) same (ground arith)

estimate_database-bounds :
    (provider code : String) (spec : TextDict String) (x : ℕ)
    → estimate_database provider code spec ≡ some x
    → (4960000 ≤ x) × (x ≤ 163590000)
unfolding estimate_database
estimate_database-bounds provider code spec x =
    if-elim P (str_eq provider "aws" && str_eq code "rds") _ _
      (monthly-bounds _ x (
        table_hourly-in_range (some aws_rds_hourly_usd) (get spec "instance_class")
          (get spec "region") rds_in_range))
      (if-elim P (str_eq code "sql_database" || str_eq code "cloud_sql") _ _
        (monthly-bounds _ x (
          table_hourly-in_range (get db_hourly_usd_by_engine provider) (get spec "engine")
            (get spec "region")
            (get-of_some table_in_range db_hourly_usd_by_engine provider databases_in_range)))
        (λ e. cc))
  where
    P : Option ℕ → Type 0
    P o = o ≡ some x → (4960000 ≤ x) × (x ≤ 163590000)

-- An estimate is never less than 4.96 nor more than 163.59 dollars a month.
pub estimate_monthly_cost_usd-bounds :
    (provider code : String) (spec : TextDict String) (x : ℕ)
    → estimate_monthly_cost_usd provider code spec ≡ some x
    → (4960000 ≤ x) × (x ≤ 163590000)
unfolding estimate_monthly_cost_usd
estimate_monthly_cost_usd-bounds provider code spec x =
    by (get (or_empty (get compute_hourly_usd provider)) code) (
      get-of_some table_in_range (or_empty (get compute_hourly_usd provider)) code (
        or_empty-all table_in_range (get compute_hourly_usd provider) (
          get-of_some (λ d. all_values table_in_range d) compute_hourly_usd provider
            compute_in_range)))
  where
    by :
        (t : Option (TextDict Prices))
        → of_some table_in_range t ≡ true
        → (elim t [
          | none ↦ estimate_database provider code spec
          | some table ↦
              monthly (table_hourly (some table) (get spec "instance_type") (get spec "region"))
        ])
          ≡ some x
        → (4960000 ≤ x) × (x ≤ 163590000)
    by none h e = estimate_database-bounds provider code spec x e
    by (some table) h e =
        monthly-bounds _ x
          (table_hourly-in_range (some table) (get spec "instance_type") (get spec "region") h) e
