-- ===== src/Anomaly/Key.antt =====
-- The keys of jumps are read back.
use multi_cloud_platform.Prelude.{
  ℕ, ◌≡◌, refl, Bool, true, false, ◌||◌, Option, none, some, arith, ◌==◌, if◌then◌else◌,
}
use Prim.Native.Char.{code}
use Prim.Native.String.{String, ◌++◌}
use text.Mathlib.TextLemmas.{nil-append, cons-append}
use multi_cloud_platform.Calendar.{Date}
use multi_cloud_platform.Anomaly.SourceKey.{
  Format, has_colon, partition, rpartition, is_empty, source_key, parse_source_key,
}

-- A text, a colon and a text.
colon : (y : String) → ":" ++ y ≡ String.◌∷◌ ":" y
colon y = rw (cons-append ":" String.[] y, nil-append y) refl

partition_append : (x y : String) → has_colon x ≡ false → partition (x ++ (":" ++ y)) ≡ (x, y)
partition_append String.[] y h = rw (nil-append (":" ++ y), colon y) refl
partition_append (String.◌∷◌ c x) y h =
    let ih = partition_append x y (ground arith) in
    let other : (code c == 58) ≡ false = ground arith in
    rw (cons-append c x (":" ++ y), ih, other) refl

has_colon_append : (x y : String) → has_colon (x ++ (":" ++ y)) ≡ true
has_colon_append String.[] y = rw (nil-append (":" ++ y), colon y) refl
has_colon_append (String.◌∷◌ c x) y =
    rw (cons-append c x (":" ++ y), has_colon_append x y) (ground arith)

rpartition_append : (x y : String) → has_colon y ≡ false → rpartition (x ++ (":" ++ y)) ≡ (x, y)
rpartition_append String.[] y h = rw (nil-append (":" ++ y), colon y, h) refl
rpartition_append (String.◌∷◌ c x) y h =
    rw (cons-append c x (":" ++ y), has_colon_append x y, rpartition_append x y h) refl

-- What is written is not empty, has no colon, and is read back.
abbrev pub Writes : Format → Type 0
Writes f =
    ((n : ℕ)
      → (has_colon (f.str n) ≡ false) × (is_empty (f.str n) ≡ false) × (f.int (f.str n) ≡ some n))
    × ((d : Date)
        → (has_colon (f.isoformat d) ≡ false)
          × (is_empty (f.isoformat d) ≡ false)
          × (f.fromisoformat (f.isoformat d) ≡ some d))

abbrev pub unless_empty : ℕ → String → Date → Option (ℕ × String × Date)
unless_empty account service day = if is_empty service then none else some (account, service, day)

-- A key is read back, whatever colons the service has, unless the service is empty: such a key is refused.
pub parse_source_key-source_key :
    (f : Format)
    → Writes f
    → (account : ℕ) (service : String) (day : Date)
    → parse_source_key f (source_key f account service day) ≡ unless_empty account service day
unfolding parse_source_key source_key
parse_source_key-source_key f (numbers, dates) account service day =
    let (a, b, c) = numbers account in
    let (d, e, g) = dates day in
    rw
      (
        partition_append (f.str account) (service ++ (":" ++ f.isoformat day)) a,
        rpartition_append service (f.isoformat day) d,
        b,
        c,
        e,
        g,
      )
      (by (is_empty service))
  where
    result : Option (ℕ × String × Date)
    result = some (account, service, day)

    by : (x : Bool) → (if x || false then none else result) ≡ (if x then none else result)
    by true = refl
    by false = refl
