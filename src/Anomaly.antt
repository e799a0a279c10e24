-- ===== src/Anomaly.antt =====
-- backend/app/cost/anomaly.py: the search for jumps of cost. Amounts are whole millionths. The baseline is a
-- seventh of the sum of seven days; it is compared and rounded as the exact quotient, from which Decimal's
-- 28 digits differ only far below a millionth.
pub mod SourceKey
pub mod Days
pub mod Usage
pub mod Evaluate
pub mod Key
pub mod Grounds
