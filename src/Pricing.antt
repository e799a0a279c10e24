-- ===== src/Pricing.antt =====
-- backend/app/pricing.py: the list prices per hour, in ten-thousandths of a dollar, and what a
-- resource of a specification costs in a month. Amounts are whole millionths of a dollar.
pub mod Amounts
use multi_cloud_platform.Prelude.{
  ℕ, ◌*◌, String, ◌&&◌, ◌||◌, Option, none, some, [], ◌∷◌, str_eq, if◌then◌else◌,
}
use multi_cloud_platform.Prelude.Rounding.{round_half_even}
use multi_cloud_platform.Prelude.Texts.{TextDict, get, get_opt, or_empty}

-- By the region.
abbrev pub Prices : Type 0
Prices = TextDict ℕ

-- By the provider, the service, and the type of the instance.
unfoldable pub compute_hourly_usd : TextDict (TextDict (TextDict Prices))
compute_hourly_usd =
    (
      "aws",
      (
        "ec2",
        ("t3.micro", ("ap-northeast-2", 130) ∷ ("us-east-1", 104) ∷ [])
            ∷ ("t3.small", ("ap-northeast-2", 260) ∷ ("us-east-1", 208) ∷ [])
            ∷ ("t3.medium", ("ap-northeast-2", 520) ∷ ("us-east-1", 416) ∷ [])
            ∷ [],
      )
          ∷ [],
    )
    ∷ (
      "azure",
      (
        "vm",
        (
          "B1s",
          ("koreacentral", 140)
              ∷ ("koreasouth", 140)
              ∷ ("eastus", 104)
              ∷ ("canadacentral", 109)
              ∷ [],
        )
            ∷ (
              "B2ats_v2",
              ("koreacentral", 101)
                  ∷ ("koreasouth", 101)
                  ∷ ("eastus", 75)
                  ∷ ("canadacentral", 79)
                  ∷ [],
            )
            ∷ (
              "B2s",
              ("koreacentral", 562)
                  ∷ ("koreasouth", 562)
                  ∷ ("eastus", 416)
                  ∷ ("canadacentral", 437)
                  ∷ [],
            )
            ∷ (
              "B4ms",
              ("koreacentral", 2241)
                  ∷ ("koreasouth", 2241)
                  ∷ ("eastus", 1660)
                  ∷ ("canadacentral", 1743)
                  ∷ [],
            )
            ∷ [],
      )
          ∷ [],
    )
    ∷ (
      "gcp",
      (
        "compute_engine",
        ("e2-micro", ("asia-northeast3", 101) ∷ ("us-central1", 84) ∷ [])
            ∷ ("e2-medium", ("asia-northeast3", 402) ∷ ("us-central1", 335) ∷ [])
            ∷ ("e2-standard-4", ("asia-northeast3", 1608) ∷ ("us-central1", 1340) ∷ [])
            ∷ [],
      )
          ∷ [],
    )
    ∷ []

-- By the class of the instance.
unfoldable pub aws_rds_hourly_usd : TextDict Prices
aws_rds_hourly_usd =
    ("db.t3.micro", ("ap-northeast-2", 210) ∷ ("us-east-1", 170) ∷ [])
    ∷ ("db.t3.small", ("ap-northeast-2", 420) ∷ ("us-east-1", 340) ∷ [])
    ∷ ("db.t3.medium", ("ap-northeast-2", 880) ∷ ("us-east-1", 710) ∷ [])
    ∷ []

-- By the provider and the engine.
unfoldable pub db_hourly_usd_by_engine : TextDict (TextDict Prices)
db_hourly_usd_by_engine =
    (
      "azure",
      (
        "MySQL",
        ("koreacentral", 205) ∷ ("koreasouth", 205) ∷ ("eastus", 155) ∷ ("canadacentral", 163) ∷ [],
      )
          ∷ (
            "PostgreSQL",
            ("koreacentral", 246)
                ∷ ("koreasouth", 246)
                ∷ ("eastus", 186)
                ∷ ("canadacentral", 195)
                ∷ [],
          )
          ∷ (
            "SQL Server",
            ("koreacentral", 68) ∷ ("koreasouth", 68) ∷ ("eastus", 68) ∷ ("canadacentral", 68) ∷ [],
          )
          ∷ [],
    )
    ∷ (
      "gcp",
      ("MySQL", ("asia-northeast3", 151) ∷ ("us-central1", 126) ∷ [])
          ∷ ("PostgreSQL", ("asia-northeast3", 631) ∷ ("us-central1", 526) ∷ [])
          ∷ ("SQL Server", ("asia-northeast3", 631) ∷ ("us-central1", 526) ∷ [])
          ∷ [],
    )
    ∷ []

-- 730 hours, quantized to whole cents.
unfoldable pub hourly_to_monthly : ℕ → ℕ
hourly_to_monthly hourly = 10000 * round_half_even (hourly * 730) 100

abbrev pub monthly : Option ℕ → Option ℕ
monthly none = none
monthly (some hourly) = some (hourly_to_monthly hourly)

unfoldable pub table_hourly : Option (TextDict Prices) → Option String → Option String → Option ℕ
table_hourly table sku region = get_opt (or_empty (get_opt (or_empty table) sku)) region

-- What follows where the service is not one of the compute tables.
unfoldable pub estimate_database : String → String → TextDict String → Option ℕ
estimate_database provider service_code spec =
    if str_eq provider "aws" && str_eq service_code "rds"
    then monthly
        (table_hourly (some aws_rds_hourly_usd) (get spec "instance_class") (get spec "region"))
    else if str_eq service_code "sql_database" || str_eq service_code "cloud_sql"
    then monthly (
        table_hourly (get db_hourly_usd_by_engine provider) (get spec "engine") (get spec "region"))
    else none

unfoldable pub estimate_monthly_cost_usd : String → String → TextDict String → Option ℕ
estimate_monthly_cost_usd provider service_code spec =
    elim (get (or_empty (get compute_hourly_usd provider)) service_code) [
      | none ↦ estimate_database provider service_code spec
      | some table ↦
          monthly (table_hourly (some table) (get spec "instance_type") (get spec "region"))
    ]
