-- ===== src/Sync/Job/Ended.antt =====
-- How the run of a job ends.
use multi_cloud_platform.Prelude.{
  ℕ, ◌+◌, ◌≡◌, refl, ◌∙◌, ◌⊎◌, inl, inr, Bool, true, false, List, [], ◌∷◌, arith, if-elim,
  Bool-cases, map, elem,
}
use multi_cloud_platform.Prelude.Sort.{In}
use multi_cloud_platform.Models.{RunStatus, success, failed, cancelled}
use multi_cloud_platform.Sync.{ResourceSyncJobItem, Inventory, Clouds}
use multi_cloud_platform.Sync.Item.Outcome.{
  Touched, Outcome, set_item-Touched, set_item_jobs, process_sync_item-Outcome,
}
use multi_cloud_platform.Sync.Job.{cancel_item, go_on, run_item, run_items}

-- The ids of items.
abbrev pub ids : List ResourceSyncJobItem → List ℕ
ids items = map (λ i. i.id) items

-- An item of the ids has a status of the test, and any other is one from before.
abbrev pub Worked : (RunStatus → Bool) → List ℕ → Inventory → Inventory → Type 0
Worked p ns before after =
    (x : ResourceSyncJobItem)
    → In x after.items
    → (y : ResourceSyncJobItem) × In y before.items
      × (x.id ≡ y.id)
      × (x.sync_job_id ≡ y.sync_job_id)
      × ((elem x.id ns ≡ true × p x.status ≡ true) ⊎ (elem x.id ns ≡ false × x ≡ y))

-- The jobs are as before, and unless an exception is raised, all items are worked on.
abbrev pub Ran : (RunStatus → Bool) → List ℕ → Inventory → Inventory × Bool → Type 0
Ran p ns before (after, crashed) =
    (after.jobs ≡ before.jobs) × ((crashed ≡ true) ⊎ Worked p ns before after)

module _ (p : RunStatus → Bool) (fails : p failed ≡ true) (succeeds : p success ≡ true) (o : Clouds)
    (c : ℕ → Bool) (cancels : (k : ℕ) → c k ≡ true → p cancelled ≡ true) where
  pub run_item-Outcome :
      (st : Inventory) (k : ℕ) (item : ResourceSyncJobItem)
      → Outcome p item.id st (run_item o (c k) st item)
  unfolding run_item cancel_item
  run_item-Outcome st k item = elim (Bool-cases (c k)) [
    | inl asked ↦ rw asked (
      set_item_jobs st item.id _,
      inr (set_item-Touched p item.id st _ (λ i. (refl, refl, cancels k asked))),
    )
    | inr other ↦ rw other (process_sync_item-Outcome p item.id fails succeeds o st item _ refl)
  ]

  Worked-more :
      (n : ℕ) (ns : List ℕ) (a b d : Inventory)
      → Touched p n a b
      → Worked p ns b d
      → Worked p (n ∷ ns) a d
  Worked-more n ns a b d first rest x i =
      let (y, j, e, f, how) = rest x i in
      let (z, k, (e2, f2, how2)) = first y j in
      (
        z,
        k,
        e ∙ e2,
        f ∙ f2,
        elim how [
          | inl (at, ok) ↦ inl (ground arith, ok)
          | inr (off, same) ↦ elim how2 [
            | inl (at, ok) ↦ inl (ground arith, rw same ok)
            | inr (off2, same2) ↦ inr (ground arith, same ∙ same2)
          ]
        ],
      )

  pub run_items-Ran :
      (st : Inventory) (k : ℕ) (items : List ResourceSyncJobItem)
      → Ran p (ids items) st (run_items o c st k items)
  unfolding run_items
  run_items-Ran st k [] = (refl, inr (λ x i. (x, i, refl, refl, inr (refl, refl))))
  run_items-Ran st k (item ∷ rest) =
      by (run_item o (c k) st item) (run_item-Outcome st k item) (λ b. run_items-Ran b (k + 1) rest)
    where
      by :
          (r : Inventory × Bool)
          → Outcome p item.id st r
          → ((b : Inventory) → Ran p (ids rest) b (run_items o c b (k + 1) rest))
          → Ran p (item.id ∷ ids rest) st (go_on (λ after. run_items o c after (k + 1) rest) r)
      by (b, crashed) (jobs, inl h) ih = rw h (jobs, inl refl)
      by (b, crashed) (jobs, inr h) ih =
          if-elim (λ z. Ran p (item.id ∷ ids rest) st z) crashed _ _ (jobs, inl refl)
            (let (jobs2, how) = ih b in
              (
                jobs2 ∙ jobs,
                elim how [
                  | inl bad ↦ inl bad
                  | inr good ↦
                      inr (
                        Worked-more item.id (ids rest) st b (run_items o c b (k + 1) rest).0 h good)
                ],
              ))
