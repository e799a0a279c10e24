-- ===== src/Sync/Job/Aggregate.antt =====
-- The status of a job from those of its items.
use multi_cloud_platform.Prelude.{
  ◌≡◌, refl, Bool, true, false, ◌||◌, ◌&&◌, if◌then◌else◌, List, [], ◌∷◌, any, all, arith,
}
use multi_cloud_platform.Models.{
  RunStatus, pending, running, success, partial_success, failed, cancelled, is_active,
}
use multi_cloud_platform.Sync.Job.{same_status, has_status, aggregate_status}

active_any :
    (ss : List RunStatus) → any is_active ss ≡ (has_status running ss || has_status pending ss)
active_any [] = refl
active_any (pending ∷ ss) = ground (arith, active_any ss)
active_any (running ∷ ss) = ground (arith, active_any ss)
active_any (success ∷ ss) = ground (arith, active_any ss)
active_any (partial_success ∷ ss) = ground (arith, active_any ss)
active_any (failed ∷ ss) = ground (arith, active_any ss)
active_any (cancelled ∷ ss) = ground (arith, active_any ss)

-- The tests of the code, one after the other.
chain :
    (r a p c f g : Bool)
    → (a ≡ true → p ≡ true)
    → is_active (
        if r
        then running
        else if a
        then pending
        else if p
        then running
        else if c
        then cancelled
        else if f && g
        then partial_success
        else if f
        then failed
        else success)
      ≡ (r || p)
chain true a p c f g h = refl
chain false true p c f g h = rw (h refl) refl
chain false false true c f g h = refl
chain false false false true f g h = refl
chain false false false false true true h = refl
chain false false false false true false h = refl
chain false false false false false g h = refl

-- A job is active exactly if some of its items is.
pub aggregate_status-active :
    (ss : List RunStatus) → is_active (aggregate_status ss) ≡ any is_active ss
unfolding aggregate_status
aggregate_status-active [] = refl
aggregate_status-active (s ∷ ss) = rw (active_any (s ∷ ss)) (
    chain (has_status running (s ∷ ss)) (all (same_status pending) (s ∷ ss))
      (has_status pending (s ∷ ss)) (all (same_status cancelled) (s ∷ ss))
      (has_status failed (s ∷ ss)) (has_status success (s ∷ ss)) (λ h. ground arith))

-- An outcome that was not cancelled.
abbrev pub is_outcome : RunStatus → Bool
is_outcome success = true
is_outcome partial_success = true
is_outcome failed = true
is_outcome _ = false

none_left :
    (ss : List RunStatus)
    → all is_outcome ss ≡ true
    → (has_status running ss ≡ false) × (has_status pending ss ≡ false)
none_left [] h = (refl, refl)
none_left (success ∷ ss) h = none_left ss h
none_left (partial_success ∷ ss) h = none_left ss h
none_left (failed ∷ ss) h = none_left ss h
none_left (pending ∷ ss) h = absurd (ground arith)
none_left (running ∷ ss) h = absurd (ground arith)
none_left (cancelled ∷ ss) h = absurd (ground arith)

-- Where no item is active and none is cancelled.
outcomes :
    (r a p c f g : Bool)
    → r ≡ false
    → a ≡ false
    → p ≡ false
    → c ≡ false
    → is_outcome (
        if r
        then running
        else if a
        then pending
        else if p
        then running
        else if c
        then cancelled
        else if f && g
        then partial_success
        else if f
        then failed
        else success)
      ≡ true
outcomes false false false false true true _ _ _ _ = refl
outcomes false false false false true false _ _ _ _ = refl
outcomes false false false false false g _ _ _ _ = refl
outcomes true a p c f g h _ _ _ = absurd (ground arith)
outcomes false true p c f g _ h _ _ = absurd (ground arith)
outcomes false false true c f g _ _ h _ = absurd (ground arith)
outcomes false false false true f g _ _ _ h = absurd (ground arith)

pub aggregate_status-outcome :
    (ss : List RunStatus) → all is_outcome ss ≡ true → is_outcome (aggregate_status ss) ≡ true
unfolding aggregate_status
aggregate_status-outcome [] h = refl
aggregate_status-outcome (s ∷ ss) h =
    let (no_running, no_pending) = none_left (s ∷ ss) h in
    outcomes (has_status running (s ∷ ss)) (all (same_status pending) (s ∷ ss))
      (has_status pending (s ∷ ss)) (all (same_status cancelled) (s ∷ ss))
      (has_status failed (s ∷ ss)) (has_status success (s ∷ ss)) no_running (ground arith)
      no_pending (ground (arith, not_cancelled s))
  where
    not_cancelled : (t : RunStatus) → is_outcome t ≡ true → same_status cancelled t ≡ false
    not_cancelled success e = refl
    not_cancelled partial_success e = refl
    not_cancelled failed e = refl
    not_cancelled pending e = refl
    not_cancelled running e = refl
    not_cancelled cancelled e = absurd (ground arith)
