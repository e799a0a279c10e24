-- ===== src/Gating.antt =====
-- backend/app/cost/gating.py: for which accounts costs may be collected, by hand and daily. The
-- settings are taken as `_parse_providers` and `_parse_account_ids` read them.
pub mod Laws
use multi_cloud_platform.Prelude.{
  ℕ, String, Bool, true, false, not, ◌&&◌, ◌||◌, Option, none, some, List, any, str_eq, ◌==◌,
  if◌then◌else◌,
}

pub record Settings : Type 0 where
  pub cost_ingest_providers : List String
  pub cost_auto_ingest_providers : List String
  pub cost_ingest_account_ids : List (String × ℕ)

pub data Denial : Type 0 where
  ingest_disabled account_not_enabled : Denial

-- The text of the reason.
abbrev pub denial_text : Denial → String
denial_text ingest_disabled = "INGEST_DISABLED"
denial_text account_not_enabled = "ACCOUNT_NOT_ENABLED"

abbrev pub is_account_scoped : String → Bool
is_account_scoped provider = str_eq provider "azure" || str_eq provider "gcp"

-- `allowed_account_ids`: whether the account passes the list, where its provider needs one.
unfoldable pub is_account_allowed : Settings → String → ℕ → Bool
is_account_allowed s provider a =
    not (is_account_scoped provider)
    || any (λ e. str_eq e.0 provider && e.1 == a) s.cost_ingest_account_ids

unfoldable pub denial : Settings → String → ℕ → List String → Option Denial
denial s provider a enabled =
    if not (any (λ p. str_eq p provider) enabled)
    then some ingest_disabled
    else if not (is_account_allowed s provider a)
    then some account_not_enabled
    else none

unfoldable pub manual_ingest_denial : Settings → String → ℕ → Option Denial
manual_ingest_denial s provider a = denial s provider a s.cost_ingest_providers

abbrev pub is_allowed : Option Denial → Bool
is_allowed none = true
is_allowed (some d) = false

unfoldable pub auto_ingest_allowed : Settings → String → ℕ → Bool
auto_ingest_allowed s provider a = is_allowed (denial s provider a s.cost_auto_ingest_providers)

unfoldable pub ingest_enabled : Settings → String → ℕ → Bool
ingest_enabled s provider a =
    is_allowed (manual_ingest_denial s provider a) || auto_ingest_allowed s provider a
