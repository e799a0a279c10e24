-- ===== src/Ingest/Ends.antt =====
-- How a collection leaves its run, the other runs and the costs.
use multi_cloud_platform.Prelude.{
  ℕ, ◌≡◌, ◌≢◌, refl, sym, ap, ◌⊎◌, inl, inr, Bool, true, false, Option, none, some, List, [], ◌∷◌,
  ◌++◌, arith, String, Bool-cases, map, ◌==◌, if◌then◌else◌, if-elim, keep_if, not,
}
use mathlib.Core.Path.{subst}
use multi_cloud_platform.Prelude.Sort.{In}
use multi_cloud_platform.Models.{
  failed, partial_success, CloudAccount, CloudAccountCost, CostIngestionRun, Credential, Db,
  is_active, is_success,
}
use multi_cloud_platform.Ingest.{
  Outside, is_not_started, CostFetchResult, Secret, payload, refused, crashed, finish, set_run,
  fail_run, end_partial, end_success, is_replaced, stored_row, source_of, locked, violated,
  replaced, insert_rows, settle_replaced, settle, replace_cost_rows, fetch_and_settle, collect,
  secret_for,
}
use multi_cloud_platform.Adapters.{is_demo_account}
use multi_cloud_platform.Notify.{evaluate_for_account}
use multi_cloud_platform.Notify.Once.{Unique}
use multi_cloud_platform.Notify.Due.{evaluate_for_account-Evaluated}

module _ (id : ℕ) (f : CostIngestionRun → CostIngestionRun) where
  abbrev pub one : CostIngestionRun → CostIngestionRun
  one r = if r.id == id then f r else r

  pub map-In :
      (x : CostIngestionRun) (rs : List CostIngestionRun)
      → In x (map one rs)
      → (y : CostIngestionRun) × In y rs × (((y.id ≡ id) × (x ≡ f y)) ⊎ ((y.id ≢ id) × (x ≡ y)))
  map-In x [] i = absurd i
  map-In x (r ∷ rs) (inl e) = elim (Bool-cases (r.id == id)) [
    | inl same ↦ (r, inl refl, inl (ground arith, rw same at e))
    | inr other ↦ (r, inl refl, inr (ground arith, rw other at e))
  ]
  map-In x (r ∷ rs) (inr i) = let (y, j, how) = map-In x rs i in (y, inr j, how)

  pub In-map :
      (x : CostIngestionRun) (rs : List CostIngestionRun) → x.id ≢ id → In x rs → In x (map one rs)
  In-map x [] n i = absurd i
  In-map x (r ∷ rs) n (inl e) = inl (ground arith)
  In-map x (r ∷ rs) n (inr i) = inr (In-map x rs n i)

-- The run with the id is ended, and the other runs are those from before.
abbrev pub Settled : ℕ → Db → Db → Type 0
Settled id before after =
    ((r : CostIngestionRun)
      → In r after.runs
      → ((r.id ≡ id) × (is_active r.status ≡ false)) ⊎ ((r.id ≢ id) × In r before.runs))
    × ((r : CostIngestionRun) → r.id ≢ id → In r before.runs → In r after.runs)

pub set_run-Settled :
    (db : Db) (id : ℕ) (f : CostIngestionRun → CostIngestionRun)
    → ((r : CostIngestionRun) → ((f r).id ≡ r.id) × (is_active (f r).status ≡ false))
    → Settled id db (set_run db id f)
unfolding set_run
set_run-Settled db id f h = (
  λ r i.
      let (y, j, how) = map-In id f r db.runs i in
      elim how [
        | inl (same, e) ↦ inl (ground (arith, h y), ground (arith, h y))
        | inr (other, e) ↦ inr (ground arith, subst (λ z. In z db.runs) (sym e) j)
      ],
  λ r n i. In-map id f r db.runs n i,
)

-- The costs changed only if the run succeeded.
abbrev pub Ended : ℕ → Db → Db → Type 0
Ended id before after =
    Settled id before after
    × Unique after.sent
    × ((after.costs ≡ before.costs)
        ⊎ ((x : CostIngestionRun) × In x after.runs × (x.id ≡ id) × (is_success x.status ≡ true)))

abbrev pub HasRun : ℕ → Db → Type 0
HasRun id db = (y : CostIngestionRun) × In y db.runs × (y.id ≡ id)

pub fail_run-Ended :
    (o : Outside) (db : Db) (id : ℕ) (code : String)
    → Unique db.sent
    → Ended id db (fail_run o db id code)
unfolding fail_run set_run
fail_run-Ended o db id code u =
    (set_run-Settled db id (finish failed (some code) o.now) (λ r. (refl, refl)), u, inl refl)

end_partial-Ended :
    (o : Outside) (db : Db) (id : ℕ) (result : CostFetchResult)
    → Unique db.sent
    → Ended id db (end_partial o db id result)
unfolding end_partial set_run
end_partial-Ended o db id result u =
    (set_run-Settled db id _ (λ r. (refl, ended (is_not_started result.error_code))), u, inl refl)
  where
    ended : (b : Bool) → is_active (if b then failed else partial_success) ≡ false
    ended true = refl
    ended false = refl

end_success-Settled :
    (o : Outside) (db : Db) (id : ℕ) (account : CloudAccount) (result : CostFetchResult)
    → Settled id db (end_success o db id account result)
unfolding end_success
end_success-Settled o db id account result = set_run-Settled db id _ (λ r. (refl, refl))

pub In-map_same :
    (id : ℕ) (f : CostIngestionRun → CostIngestionRun) (y : CostIngestionRun)
    (rs : List CostIngestionRun)
    → y.id ≡ id
    → In y rs
    → In (f y) (map (λ r. if r.id == id then f r else r) rs)
In-map_same id f y [] e i = absurd i
In-map_same id f y (r ∷ rs) e (inl same) = inl (rw (sym same) (ground arith))
In-map_same id f y (r ∷ rs) e (inr i) = inr (In-map_same id f y rs e i)

end_success-success :
    (o : Outside) (db : Db) (id : ℕ) (account : CloudAccount) (result : CostFetchResult)
    → HasRun id db
    → (x : CostIngestionRun) × In x (end_success o db id account result).runs
      × (x.id ≡ id)
      × (is_success x.status ≡ true)
unfolding end_success set_run
end_success-success o db id account result (y, i, e) = (_, In-map_same id _ y db.runs e i, e, refl)

stored-Ended :
    (o : Outside) (db : Db) (account : CloudAccount) (id : ℕ) (result : CostFetchResult)
    (costs : List CloudAccountCost)
    → Unique db.sent
    → HasRun id db
    → Ended id db
        (evaluate_for_account
          (end_success o (record db { costs = costs }) id account result)
          o.today
          account).0
unfolding end_success set_run
stored-Ended o db account id result costs u has =
    let d : Db = end_success o (record db { costs = costs }) id account result in
    let (same, (u2, grows, new)) = evaluate_for_account-Evaluated d o.today account u in
    let runs : (evaluate_for_account d o.today account).0.runs ≡ d.runs = ap (λ x. x.runs) same in
    let settled : Settled id db d = set_run-Settled db id _ (λ r. (refl, refl)) in
    let won = end_success-success o (record db { costs = costs }) id account result has in
    rw runs (settled, u2, inr won)

-- A collection that raises has committed nothing, and one that does not has ended its run.
abbrev pub Collected : ℕ → Db → Db × Bool → Type 0
Collected id db (after, raised) =
    ((raised ≡ true) × (after ≡ db)) ⊎ ((raised ≡ false) × Ended id db after)

settle_replaced-Ended :
    (o : Outside) (db : Db) (account : CloudAccount) (run : CostIngestionRun)
    (result : CostFetchResult) (kept new : List CloudAccountCost) (got bad : Bool)
    → Unique db.sent
    → HasRun run.id db
    → Collected run.id db (
        settle_replaced o db account run result (
          if got
          then if bad then violated else replaced (record db { costs = kept ++ new })
          else locked))
unfolding settle_replaced
settle_replaced-Ended o db account run result kept new true true u has = inl (refl, refl)
settle_replaced-Ended o db account run result kept new true false u has =
    inr (refl, stored-Ended o db account run.id result (kept ++ new) u has)
settle_replaced-Ended o db account run result kept new false bad u has =
    inr (refl, fail_run-Ended o db run.id "JOB_ALREADY_RUNNING" u)

pub settle-Ended :
    (o : Outside) (db : Db) (account : CloudAccount) (run : CostIngestionRun)
    (result : CostFetchResult)
    → Unique db.sent
    → HasRun run.id db
    → Collected run.id db (settle o db account run result)
unfolding settle replace_cost_rows insert_rows
settle-Ended o db account run result u has =
    if-elim (Collected run.id db) result.partial _ _
      (inr (refl, end_partial-Ended o db run.id result u))
      (settle_replaced-Ended o db account run result
        (keep_if (λ r. not (is_replaced account.id run.period_start run.period_end source r))
          db.costs)
        (map (stored_row account source o.now) result.rows) (o.try_lock account.id) _ u has)
  where
    source : String
    source = source_of db account

pub collect-Ended :
    (o : Outside) (db : Db) (account : CloudAccount) (run : CostIngestionRun)
    (credential : Credential)
    → Unique db.sent
    → HasRun run.id db
    → Collected run.id db (collect o db account run credential)
unfolding collect fetch_and_settle
collect-Ended o db account run credential u has = by_secret (secret_for o db account credential)
  where
    by_answer :
        (r : Option CostFetchResult)
        → Collected run.id db
            (elim r [ none ↦ (db, true) | some result ↦ settle o db account run result ])
    by_answer none = inl (refl, refl)
    by_answer (some result) = settle-Ended o db account run result u has

    by_secret : (s : Secret) → Collected run.id db (fetch_and_settle o db account run s)
    by_secret (payload p) =
        by_answer (o.fetch account (is_demo_account db account) p run.period_start run.period_end)
    by_secret (refused code) = inr (refl, fail_run-Ended o db run.id code u)
    by_secret crashed = inl (refl, refl)
