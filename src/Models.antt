-- ===== src/Models.antt =====
-- The rows that the cost components read and write (backend/app/models.py), with the columns that
-- they use. Closed value sets, which CHECK constraints enforce, are data types; times are numbers;
-- amounts (Numeric(19, 6)) are whole millionths of the currency unit.
use multi_cloud_platform.Prelude.{ℕ, Bool, String, Option, List}
use multi_cloud_platform.Prelude.Int.{ℤ}
use multi_cloud_platform.Calendar.{Date}

pub data PeriodType : Type 0 where
  monthly quarterly annual custom : PeriodType

pub data ChargeCategory : Type 0 where
  usage credit refund tax other : ChargeCategory

pub data RunStatus : Type 0 where
  pending running success partial_success failed cancelled : RunStatus

pub data TriggerType : Type 0 where
  auto manual : TriggerType

pub record Team : Type 0 where
  pub id : ℕ
  pub user_id : ℕ
  pub name : String
  pub currency : String

-- A user, as far as it is told whether it is the demo user.
pub record User : Type 0 where
  pub id : ℕ
  pub normalized_email : String

pub record TeamBudget : Type 0 where
  pub id : ℕ
  pub team_id : ℕ
  pub period_type : PeriodType
  pub start_date : Date
  pub end_date : Option Date
  pub limit_amount : ℕ
  pub currency : String

pub record TeamBudgetNotification : Type 0 where
  pub team_budget_id : ℕ
  pub period_start : Date
  pub threshold : ℕ

pub record CloudAccount : Type 0 where
  pub id : ℕ
  pub user_id : ℕ
  pub team_id : Option ℕ
  pub provider : String

pub record CloudAccountCost : Type 0 where
  pub cloud_account_id : ℕ
  pub provider : String
  pub service : Option String
  pub charge_category : ChargeCategory
  pub amount : ℤ
  pub currency : String
  pub period_start : Date
  pub period_end : Date
  pub is_estimated : Bool
  pub as_of : ℕ
  pub source : String
  pub source_record_key : String

pub record CostIngestionRun : Type 0 where
  pub id : ℕ
  pub cloud_account_id : ℕ
  pub trigger_type : TriggerType
  pub status : RunStatus
  pub period_start : Date
  pub period_end : Date
  pub requested_at : ℕ
  pub finished_at : Option ℕ
  pub api_calls : ℕ
  pub records_replaced : ℕ
  pub error_code : Option String
  pub coverage_basis : Option String

-- A credential row, as far as it says which account it belongs to and whether it was verified.
pub record Credential : Type 0 where
  pub id : ℕ
  pub cloud_account_id : ℕ
  pub verified : Bool
  pub display_order : ℕ

-- The tables.
pub record Db : Type 0 where
  pub users : List User
  pub teams : List Team
  pub accounts : List CloudAccount
  pub credentials : List Credential
  pub costs : List CloudAccountCost
  pub runs : List CostIngestionRun
  pub budgets : List TeamBudget
  pub sent : List TeamBudgetNotification

-- `status in ("pending", "running")`
abbrev pub is_active : RunStatus → Bool
is_active pending = Bool.true
is_active running = Bool.true
is_active _ = Bool.false

abbrev pub is_manual : TriggerType → Bool
is_manual manual = Bool.true
is_manual auto = Bool.false

abbrev pub is_success : RunStatus → Bool
is_success success = Bool.true
is_success _ = Bool.false

abbrev pub is_custom : PeriodType → Bool
is_custom custom = Bool.true
is_custom _ = Bool.false

abbrev pub is_usage : ChargeCategory → Bool
is_usage usage = Bool.true
is_usage _ = Bool.false
