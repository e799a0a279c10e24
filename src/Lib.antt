-- ===== src/Lib.antt =====
-- The cost side of a multi-cloud platform (backend/app), which collects the costs that cloud providers
-- report, decides for which days they can be relied on, and holds teams to budgets.
--
-- Models.antt has the database rows (models.py), Calendar.antt the dates of Python's `datetime`.
-- Coverage.antt is cost/coverage.py: the ground on which each day of an account counts as collected.
-- Budget.antt is cost/budget.py: calendar periods, the chain of recurring budgets, their states and the
-- budget that is shown; Budget/Status.antt is its `compute_budget_status`. Adapters.antt has the table of
-- cost adapters (cost/__init__.py), account_scope.py and the account currencies of cost/query.py.
-- Notify.antt is cost/notify.py, which tells of each threshold once; Gating.antt is cost/gating.py, which
-- opens accounts to collection. Ingest.antt has what all collections share (cost/ingest.py, cost/base.py),
-- Ingest/Daily.antt the daily one (cost/scheduler.py), Ingest/Request.antt and Ingest/Manual.antt the request for
-- one by hand and its run (routers/costs.py); after a success they call Notify, which calls Budget/Status.
-- Teams.antt, Teams/Edit.antt, Teams/Assign.antt and Teams/Lifecycle.antt are routers/teams.py: the writes of
-- budgets, of a team's accounts and of teams, most of them followed by an evaluation of the thresholds.
-- Sync.antt has the tables of the resource synchronisation and resource_sync.py; Sync/Upsert.antt,
-- Sync/Item.antt, Sync/Job.antt and Sync/Request.antt are routers/sync_jobs.py: what is stored of a listing, the
-- work for one account, the run of a job in the background, and the requests that begin and cancel one.
-- Pricing.antt is pricing.py, whose estimate cost/pricing_sync.py stores with a resource (Sync/Upsert.antt).
-- Anomaly.antt is cost/anomaly.py, the search for jumps of cost on the grounds of Coverage: its keys, the days that
-- can be judged, the usage of a service, and the search. Review.antt is cost/review.py and the writes of
-- routers/cost_review.py: the queue in which a jump is announced.
-- Auth.antt has the rows of authentication; Auth/Sessions.antt, Auth/SignUp.antt and Auth/Reset.antt are
-- routers/auth.py: sessions and withdrawal, the codes for addresses and the sign-up, and the reset of passwords.
-- Scenarios.antt has example data and instances.
-- Functions keep their source names, without a leading underscore.
--
-- Conventions. A database is a record of tables, and a query a filter and a sort over a table. A date is
-- its ordinal, an amount a whole number of millionths. Loops over days run on the number of days
-- left, which is the difference of the ends, so that no fuel is guessed. `year` searches upwards with the
-- day itself as fuel; the search needs less than that (Calendar/Fields.antt).
-- Of `datetime`'s range the upper end is modelled where the code builds a date (`constructed`).
-- Sync/Request/Interleaved.antt lets the commits of several runs and the requests interleave; each request is
-- one step there, though create_sync_job checks and inserts without a lock. Sync/Request/Revived.antt has
-- what comes of two requests at once, and of a job that was cancelled and runs all the same.
-- Exceptions are `none` where the code can raise. The order in which a database returns equal rows is
-- taken to be that of storing.
-- What lies outside the program is the record `Outside` of functions (`Clouds` for the
-- synchronisation, `Security` for authentication): adapters, decryption and token service, the
-- advisory lock, the clock, which is read once for a collection, so that any answers of theirs are covered.
-- A function that can raise after a commit returns the committed tables and whether it raised.
--
-- Not modelled: the forecast of a budget, the lists of jumps for display, the inbox, the profile of a
-- user, access tokens, audit rows, times that are only shown, the parsing of settings, logging, HTTP and the pages.
pub mod Prelude
pub mod Calendar
pub mod Models
pub mod Adapters
pub mod Coverage
pub mod Budget
pub mod Gating
pub mod Notify
pub mod Ingest
pub mod Teams
pub mod Pricing
pub mod Sync
pub mod Anomaly
pub mod Review
pub mod Auth
mod Scenarios
