-- ===== src/Ingest/Replace.antt =====
-- Which rows a replacement leaves.
use multi_cloud_platform.Prelude.{
  ◌≤◌, ◌<◌, ◌≡◌, ◌↔◌, ◌⊎◌, refl, inl, inr, Bool, true, false, not, ◌||◌, List, [], ◌∷◌, ◌++◌, map,
  any, arith, String, Bool-cases, keep_if, eq_iff,
}
use mathlib.Core.Path.{subst}
use multi_cloud_platform.Prelude.Sort.{In}
use multi_cloud_platform.Prelude.Members.{
  In-keep_if, keep_if-In, append-In, In-append_left, In-append_right,
}
use multi_cloud_platform.Models.{CloudAccount, CloudAccountCost, CostIngestionRun, Db}
use multi_cloud_platform.Ingest.{
  Outside, CostRow, is_replaced, stored_row, is_empty_period, has_clash, Replacement, locked,
  violated, replaced, insert_rows, replace_cost_rows,
}
use multi_cloud_platform.Ingest.Keys.{UniqueKeys, UniqueKeys-keep_if, no_clash, UniqueKeys-append}

-- A row of the account and the origin, for a day of the run.
abbrev pub IsInRun : CloudAccount → CostIngestionRun → String → CloudAccountCost → Type 0
IsInRun account run source x =
    (x.cloud_account_id ≡ account.id)
    × (run.period_start ≤ x.period_start)
    × (x.period_start < run.period_end)
    × (x.source ≡ source)

-- The row that is stored for a row of the answer.
abbrev pub IsStored : Outside → CloudAccount → String → CostRow → CloudAccountCost → Type 0
IsStored o account source row x = x ≡ record {
  cloud_account_id = account.id;
  provider = account.provider;
  service = row.service;
  charge_category = row.charge_category;
  amount = row.amount;
  currency = row.currency;
  period_start = row.period_start;
  period_end = row.period_end;
  is_estimated = row.is_estimated;
  as_of = o.now;
  source = source;
  source_record_key = row.source_record_key;
}

-- The costs after a replacement: the old ones that are not in the run, and the answer's.
abbrev pub IsExchanged :
    Outside → Db → CloudAccount → CostIngestionRun → List CostRow → String → Db → Type 0
IsExchanged o db account run rows source after =
    ((x : CloudAccountCost)
      → In x after.costs ↔ (
          (In x db.costs × (IsInRun account run source x → ⊥))
          ⊎ ((row : CostRow) × In row rows × IsStored o account source row x)))
    × UniqueKeys after.costs

is_replaced-IsInRun :
    (account : CloudAccount) (run : CostIngestionRun) (source : String) (x : CloudAccountCost)
    → (is_replaced account.id run.period_start run.period_end source x ≡ true)
      ↔ IsInRun account run source x
unfolding is_replaced
is_replaced-IsInRun account run source x =
    let (to, from) = eq_iff x.source source in
    (
      λ h.
          let same : x.source ≡ source = to (ground arith) in
          (ground arith, ground arith, ground arith, same),
      λ (a, b, c, d). let same = from d in ground arith,
    )

stays :
    (account : CloudAccount) (run : CostIngestionRun) (source : String) (x : CloudAccountCost)
    → (is_replaced account.id run.period_start run.period_end source x ≡ false)
      ↔ (IsInRun account run source x → ⊥)
stays account run source x =
    let (to, from) = is_replaced-IsInRun account run source x in
    (
      λ off h. let on = from h in ground arith,
      λ h. elim (Bool-cases (is_replaced account.id run.period_start run.period_end source x)) [
        | inl on ↦ absurd (h (to on))
        | inr off ↦ off
      ],
    )

rows_of_answer :
    (o : Outside) (account : CloudAccount) (source : String) (x : CloudAccountCost)
    (rows : List CostRow)
    → In x (map (stored_row account source o.now) rows)
      ↔ ((row : CostRow) × In row rows × IsStored o account source row x)
unfolding stored_row
rows_of_answer o account source x [] = (λ i. absurd i, λ (row, i, e). absurd i)
rows_of_answer o account source x (r ∷ rs) =
    let (to, from) = rows_of_answer o account source x rs in
    (
      λ i. elim i [ inl e ↦ (r, inl refl, e) | inr j ↦ let (row, k, e) = to j in (row, inr k, e) ],
      λ (row, i, e). elim i [
        | inl same ↦ inl (subst (λ z. IsStored o account source z x) same e)
        | inr j ↦ inr (from (row, j, e))
      ],
    )

-- What a replacement that succeeds leaves.
abbrev OnReplaced : (Db → Type 0) → Replacement → Type 0
OnReplaced P locked = Unit
OnReplaced P violated = Unit
OnReplaced P (replaced after) = P after

insert_rows-OnReplaced :
    (P : Db → Type 0) (db : Db) (kept new : List CloudAccountCost)
    → (has_clash new kept ≡ false → P (record db { costs = kept ++ new }))
    → OnReplaced P (insert_rows db kept new)
unfolding insert_rows
insert_rows-OnReplaced P db kept new h =
    elim (Bool-cases (any is_empty_period new || has_clash new kept)) [
      | inl bad ↦ rw bad tt
      | inr good ↦ rw good (h (ground arith))
    ]

replace_cost_rows-OnReplaced :
    (o : Outside) (db : Db) (account : CloudAccount) (run : CostIngestionRun) (rows : List CostRow)
    (source : String)
    → UniqueKeys db.costs
    → OnReplaced
        (IsExchanged o db account run rows source)
        (replace_cost_rows o db account run rows source)
unfolding replace_cost_rows
replace_cost_rows-OnReplaced o db account run rows source u =
    elim (Bool-cases (o.try_lock account.id)) [
      | inr held ↦ rw held tt
      | inl got ↦ rw got (
          insert_rows-OnReplaced (IsExchanged o db account run rows source) db kept new (λ h.
            let (own, apart) = no_clash new kept h in
            (exact, UniqueKeys-append kept new (UniqueKeys-keep_if p db.costs u) own apart)))
    ]
  where
    p : CloudAccountCost → Bool
    p = λ r. not (is_replaced account.id run.period_start run.period_end source r)

    kept : List CloudAccountCost
    kept = keep_if p db.costs

    new : List CloudAccountCost
    new = map (stored_row account source o.now) rows

    exact :
        (x : CloudAccountCost)
        → In x (kept ++ new) ↔ (
            (In x db.costs × (IsInRun account run source x → ⊥))
            ⊎ ((row : CostRow) × In row rows × IsStored o account source row x))
    exact x =
        let (out, back) = stays account run source x in
        let (to, from) = rows_of_answer o account source x rows in
        (
          λ i. elim (append-In x kept new i) [
            | inl j ↦ let (k, e) = keep_if-In p x db.costs j in inl (k, out (ground arith))
            | inr j ↦ inr (to j)
          ],
          λ i. elim i [
            | inl (j, h) ↦
                let off = back h in
                In-append_left x kept new (In-keep_if p x db.costs j (ground arith))
            | inr j ↦ In-append_right x kept new (from j)
          ],
        )

-- In a table that meets its UNIQUE constraint, a replacement that succeeds leaves exactly the rows
-- that are not of the account, the origin and the days of the run, and one row for each row of the
-- answer, and the table meets the constraint still.
pub replace_cost_rows-IsExchanged :
    (o : Outside) (db after : Db) (account : CloudAccount) (run : CostIngestionRun)
    (rows : List CostRow) (source : String)
    → UniqueKeys db.costs
    → replace_cost_rows o db account run rows source ≡ replaced after
    → IsExchanged o db account run rows source after
replace_cost_rows-IsExchanged o db after account run rows source u h =
    subst (OnReplaced (IsExchanged o db account run rows source)) h
      (replace_cost_rows-OnReplaced o db account run rows source u)
