-- ===== src/Notify/Once.antt =====
-- No threshold of a budget is notified twice in a period.
use multi_cloud_platform.Prelude.{
  ℕ, ◌*◌, ◌≡◌, true, false, List, [], ◌∷◌, ◌++◌, arith, inl, inr, Bool-cases, All,
}
use multi_cloud_platform.Prelude.Int.{ℤ, pos, ltb_ℤ}
use multi_cloud_platform.Calendar.{Date}
use multi_cloud_platform.Models.{Team, TeamBudgetNotification}
use multi_cloud_platform.Notify.{
  Notification, is_sent, insert_sent, announce, notify_threshold, notify_thresholds,
}

-- The UNIQUE constraint: no row has the key of one that follows it.
abbrev pub Unique : List TeamBudgetNotification → Type 0
Unique [] = Unit
Unique (n ∷ ns) = (is_sent ns n.team_budget_id n.period_start n.threshold ≡ false) × Unique ns

-- A notification made has a row now, and had none.
abbrev pub IsNew : List TeamBudgetNotification → List TeamBudgetNotification → Notification → Type 0
IsNew before after n =
    (is_sent before n.reference_id n.period_start n.percent ≡ false)
    × (is_sent after n.reference_id n.period_start n.percent ≡ true)

-- The rows that are there stay.
abbrev pub Grows : List TeamBudgetNotification → List TeamBudgetNotification → Type 0
Grows before after =
    (b : ℕ) (p : Date) (t : ℕ) → is_sent before b p t ≡ true → is_sent after b p t ≡ true

-- What is known after a part of the loop.
abbrev pub After :
    List TeamBudgetNotification → List TeamBudgetNotification → List Notification → Type 0
After before after made = Unique after × Grows before after × All (IsNew before after) made

module _ (team : Team) (b : ℕ) (p : Date) where
  insert-Unique :
      (t : ℕ) (sent : List TeamBudgetNotification)
      → Unique sent
      → is_sent sent b p t ≡ false
      → let row : TeamBudgetNotification = record {
        team_budget_id = b;
        period_start = p;
        threshold = t;
      } in
        Unique (row ∷ sent) × Grows sent (row ∷ sent) × (is_sent (row ∷ sent) b p t ≡ true)
  unfolding is_sent
  insert-Unique t sent u new = ((new, u), λ b2 p2 t2 h. ground arith, ground arith)

  announce-After :
      (t : ℕ) (sent : List TeamBudgetNotification)
      → Unique sent
      → let (after, made) = announce team b p t sent in
        After sent after made × (is_sent after b p t ≡ true)
  unfolding insert_sent
  announce-After t sent u = elim (Bool-cases (is_sent sent b p t)) [
    | inl old ↦ rw (old, announce, insert_sent) ((u, λ b2 p2 t2 h. h, tt), old)
    | inr new ↦
        let (v, grows, row) = insert-Unique t sent u new in
        rw (new, announce, insert_sent) ((v, grows, ((new, row), tt)), row)
  ]

  notify_threshold-After :
      (ratio : ℤ) (t : ℕ) (sent : List TeamBudgetNotification)
      → Unique sent
      → let (after, made) = notify_threshold team b p ratio t sent in
        After sent after made × (ltb_ℤ ratio (pos (t * 10)) ≡ false → is_sent after b p t ≡ true)
  unfolding notify_threshold
  notify_threshold-After ratio t sent u = elim (Bool-cases (ltb_ℤ ratio (pos (t * 10)))) [
    | inl below ↦ rw below ((u, λ b2 p2 t2 h. h, tt), λ h. cc)
    | inr above ↦ rw above (let (after, row) = announce-After t sent u in (after, λ h. row))
  ]

  All-IsNew_before :
      (x y z : List TeamBudgetNotification) (made : List Notification)
      → Grows x y
      → All (IsNew y z) made
      → All (IsNew x z) made
  All-IsNew_before x y z [] g h = tt
  All-IsNew_before x y z (n ∷ ns) g ((new, row), rest) = (
    (ground (arith, g n.reference_id n.period_start n.percent), row),
    All-IsNew_before x y z ns g rest,
  )

  All-IsNew_after :
      (x y z : List TeamBudgetNotification) (made rest : List Notification)
      → Grows y z
      → All (IsNew x y) made
      → All (IsNew x z) rest
      → All (IsNew x z) (made ++ rest)
  All-IsNew_after x y z [] rest g h k = k
  All-IsNew_after x y z (n ∷ ns) rest g ((new, row), h) k =
      ((new, g n.reference_id n.period_start n.percent row), All-IsNew_after x y z ns rest g h k)

  pub notify_thresholds-After :
      (ratio : ℤ) (ts : List ℕ) (sent : List TeamBudgetNotification)
      → Unique sent
      → let (after, made) = notify_thresholds team b p ratio ts sent in
        After sent after made
        × All (λ t. ltb_ℤ ratio (pos (t * 10)) ≡ false → is_sent after b p t ≡ true) ts
  unfolding notify_thresholds
  notify_thresholds-After ratio [] sent u = ((u, (λ b2 p2 t2 h. h), tt), tt)
  notify_thresholds-After ratio (t ∷ ts) sent u =
      let ((u1, g1, n1), row) = notify_threshold-After ratio t sent u in
      let ((u2, g2, n2), rows) = notify_thresholds-After ratio ts _ u1 in
      (
        (
          u2,
          λ b2 p2 t2 h. g2 b2 p2 t2 (g1 b2 p2 t2 h),
          All-IsNew_after _ _ _ _ _ g2 n1 (All-IsNew_before _ _ _ _ g1 n2),
        ),
        (λ h. g2 b p t (row h), rows),
      )
