-- ===== src/Anomaly/SourceKey.antt =====
-- backend/app/cost/anomaly.py: the key of a jump, which is a text of the account, the service and the day.
use multi_cloud_platform.Prelude.{
  ℕ, Bool, true, false, ◌||◌, Option, none, some, if◌then◌else◌, ◌==◌,
}
use Prim.Native.Char.{code}
use Prim.Native.String.{String, ◌++◌}
use multi_cloud_platform.Calendar.{Date}

-- How Python writes and reads a number and a date.
pub record Format : Type 0 where
  pub str : ℕ → String
  pub int : String → Option ℕ
  pub isoformat : Date → String
  pub fromisoformat : String → Option Date

abbrev pub has_colon : String → Bool
has_colon String.[] = false
has_colon (String.◌∷◌ c s) = code c == 58 || has_colon s

-- `s.partition(":")`, less the separator.
abbrev pub partition : String → String × String
partition String.[] = ("", "")
partition (String.◌∷◌ c s) =
    let (before, after) = partition s in
    if code c == 58 then ("", s) else (String.◌∷◌ c before, after)

-- `s.rpartition(":")`, less the separator.
abbrev pub rpartition : String → String × String
rpartition String.[] = ("", "")
rpartition (String.◌∷◌ c s) =
    let (before, after) = rpartition s in
    if has_colon s
    then (String.◌∷◌ c before, after)
    else if code c == 58
    then ("", s)
    else ("", String.◌∷◌ c s)

abbrev pub is_empty : String → Bool
is_empty String.[] = true
is_empty (String.◌∷◌ c s) = false

unfoldable pub source_key : Format → ℕ → String → Date → String
source_key f account service day = f.str account ++ (":" ++ (service ++ (":" ++ f.isoformat day)))

abbrev pub triple : Option ℕ → String → Option Date → Option (ℕ × String × Date)
triple (some a) service (some day) = some (a, service, day)
triple _ service _ = none

-- `none` is a ValueError.
unfoldable pub parse_source_key : Format → String → Option (ℕ × String × Date)
parse_source_key f key =
    let (first, rest) = partition key in
    let (service, day) = rpartition rest in
    if is_empty first || is_empty service || is_empty day
    then none
    else triple (f.int first) service (f.fromisoformat day)
