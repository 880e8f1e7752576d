-- ===== src/Scheduler/Batch/Whole.antt =====
-- A whole batch (`batchBuy` of offchain/scheduler/batch.ts, after its initialisation) returns, with
-- every purchase completed or abandoned.
use pumpling.Base.{
  ==_iff, ==_refl, Bool, Bool-cases, List, [], arith, false, filter, find?, has, inl, inr, ok, refl,
  some, subst, true, ℕ, ◌==◌, ◌∙◌, ◌∷◌, ◌≡◌, ◌⊎◌,
}
use pumpling.Orchestrator.Types.{Time}
use pumpling.Scheduler.Batch.{Outside, Run}
use pumpling.Scheduler.Batch.Keeps.{
  At, At-weaken, Returns, Returns-bind, Returns-ok, Tells, any_status, closed, closed-tried,
  indexes, tried,
}
use pumpling.Scheduler.Batch.Main.{buy_all}
use pumpling.Scheduler.Batch.MainEnds.{Tried-buy_scheduled}
use pumpling.Scheduler.Batch.Retry.{open_window, retry_all, retry_failed, run_batch}
use pumpling.Scheduler.Batch.RetryEnds.{Closed-retry_one}
use pumpling.Scheduler.State.{
  finalize, get_failed_purchases, get_purchase, is_purchase, mark_retry_window, purchase_code,
  purchase_has,
}
use pumpling.Scheduler.Types.{BatchConfig, PurchaseRecord, PurchaseStatus}

Tells-listed :
    (j : ℕ) (ps : List PurchaseRecord) → has j (indexes ps) ≡ true → Tells any_status j ps
Tells-listed j [] h = cc
Tells-listed j (p ∷ ps) h = elim (Bool-cases (p.index == j)) [
  | inl first ↦ record { found = p; is = rw first refl; fit = refl }
  | inr there ↦
      let rest = Tells-listed j ps (ground (arith, h)) in
      record { found = rest.found; is = rw there rest.is; fit = refl }
]

-- After a change of the purchase `i`.
Tells-At :
    (i j : ℕ) (base ps : List PurchaseRecord) (P : PurchaseStatus → Bool)
    → At i base P ps
    → Tells P j base
    → Tells P j ps
Tells-At i j base ps P h k = elim (Bool-cases (i == j)) [
  | inl same ↦ subst (λ (n : ℕ). Tells P n ps) ((==_iff i j).0 same) h.here
  | inr other ↦ record { found = k.found; is = h.other j other ∙ k.is; fit = k.fit }
]

-- A failed purchase is in the list of them.
has-failed :
    (j : ℕ) (ps : List PurchaseRecord) (p : PurchaseRecord)
    → find? (is_purchase j) ps ≡ some p
    → purchase_has PurchaseStatus.failed p ≡ true
    → has j (indexes (filter (purchase_has PurchaseStatus.failed) ps)) ≡ true
has-failed j [] p e f = cc
has-failed j (q ∷ ps) p e f = ground (arith, has-failed j ps p)

tried-cases :
    (p : PurchaseRecord)
    → tried p.status ≡ true
    → (closed p.status ≡ true) ⊎ (purchase_has PurchaseStatus.failed p ≡ true)
tried-cases p h = status_cases p.status h
  where
    status_cases :
        (s : PurchaseStatus)
        → tried s ≡ true
        → (closed s ≡ true) ⊎ ((purchase_code s == purchase_code PurchaseStatus.failed) ≡ true)
    status_cases PurchaseStatus.completed h = inl refl
    status_cases PurchaseStatus.abandoned h = inl refl
    status_cases PurchaseStatus.failed h = inr refl
    status_cases PurchaseStatus.pending h = cc
    status_cases PurchaseStatus.in_progress h = cc

-- What is known of the purchases that are still listed, after a change of the first.
still_listed :
    (i : ℕ) (rest : List ℕ) (base ps : List PurchaseRecord) (P : PurchaseStatus → Bool)
    → At i base P ps
    → ((j : ℕ) → has j (i ∷ rest) ≡ true → Tells P j base)
    → (j : ℕ) → has j rest ≡ true
    → Tells P j ps
still_listed i rest base ps P h known j k = Tells-At i j base ps P h (known j (ground (arith, k)))

-- A purchase that was listed, or fits, is listed after the first one, or fits.
listed_or_fits :
    (i j : ℕ) (rest : List ℕ) (base ps : List PurchaseRecord) (P : PurchaseStatus → Bool)
    → At i base P ps
    → (has j (i ∷ rest) ≡ true) ⊎ Tells P j base
    → (has j rest ≡ true) ⊎ Tells P j ps
listed_or_fits i j rest base ps P h (inr k) = inr (Tells-At i j base ps P h k)
listed_or_fits i j rest base ps P h (inl k) = elim (Bool-cases (i == j)) [
  | inl same ↦ inr (subst (λ (n : ℕ). Tells P n ps) ((==_iff i j).0 same) h.here)
  | inr other ↦ inl (ground (arith, k))
]

-- After the list, each of its purchases fits, and those that did still do.
record Passed (P : PurchaseStatus → Bool) (list : List ℕ) (base ps : List PurchaseRecord)
    : Type 0 where
  passed : (j : ℕ) → (has j list ≡ true) ⊎ Tells P j base → Tells P j ps
  listed : indexes ps ≡ indexes base

Passed-none : (P : PurchaseStatus → Bool) (ps : List PurchaseRecord) → Passed P [] ps ps
Passed-none P ps = record { passed = λ j h. nothing_listed j h; listed = refl }
  where
    nothing_listed : (j : ℕ) → (has j [] ≡ true) ⊎ Tells P j ps → Tells P j ps
    nothing_listed j (inl h) = cc
    nothing_listed j (inr h) = h

Passed-first :
    (i : ℕ) (rest : List ℕ) (base ps qs : List PurchaseRecord) (P : PurchaseStatus → Bool)
    → At i base P ps
    → Passed P rest ps qs
    → Passed P (i ∷ rest) base qs
Passed-first i rest base ps qs P h k = record {
  passed = λ j l. k.passed j (listed_or_fits i j rest base ps P h l);
  listed = k.listed ∙ h.listed;
}

pub At-start :
    (i : ℕ) (P : PurchaseStatus → Bool) (ps : List PurchaseRecord) → Tells P i ps → At i ps P ps
At-start i P ps h = record { here = h; other = λ j d. refl; listed = refl }

module _ (outside : Outside) (config : BatchConfig) (has_ata : Bool) where
  Passed-buy_all :
      (ps : List PurchaseRecord) (emptied : Bool) (run : Run)
      → ((j : ℕ) → has j (indexes ps) ≡ true → Tells any_status j run.state.purchases)
      → Returns
          (λ (r : Run). Passed tried (indexes ps) run.state.purchases r.state.purchases)
          (buy_all outside config has_ata ps emptied run)
  unfolding buy_all
  Passed-buy_all [] emptied run known = Returns-ok _ run (Passed-none tried run.state.purchases)
  Passed-buy_all (p ∷ ps) emptied run known =
      let base = run.state.purchases in
      Returns-bind (λ (x : Bool × Run). At p.index base tried x.1.state.purchases)
        (λ (r : Run). Passed tried (indexes (p ∷ ps)) base r.state.purchases) _ _
        (Tried-buy_scheduled p base outside config has_ata emptied run
          (At-start p.index any_status base (known p.index (ground (arith, ==_refl p.index)))))
        (λ x h.
          let after = Passed-buy_all ps x.0 x.1 (
            still_listed p.index (indexes ps) base x.1.state.purchases any_status
              (At-weaken p.index base tried any_status x.1.state.purchases (λ t k. refl) h)
              known) in
          record {
            value = after.value;
            returns = after.returns;
            fits =
                Passed-first p.index (indexes ps) base x.1.state.purchases
                  after.value.state.purchases tried h after.fits;
          })

  Passed-retry_all :
      (deadline : Time) (ps : List PurchaseRecord) (run : Run)
      → ((j : ℕ) → has j (indexes ps) ≡ true → Tells tried j run.state.purchases)
      → Returns
          (λ (r : Run). Passed closed (indexes ps) run.state.purchases r.state.purchases)
          (retry_all outside config has_ata deadline ps run)
  unfolding retry_all
  Passed-retry_all deadline [] run known = Returns-ok _ run (Passed-none closed run.state.purchases)
  Passed-retry_all deadline (p ∷ ps) run known =
      let base = run.state.purchases in
      Returns-bind (λ (r : Run). At p.index base closed r.state.purchases)
        (λ (r : Run). Passed closed (indexes (p ∷ ps)) base r.state.purchases) _ _
        (Closed-retry_one base outside config has_ata deadline p run
          (At-start p.index tried base (known p.index (ground (arith, ==_refl p.index)))))
        (λ x h.
          let after = Passed-retry_all deadline ps x (
            still_listed p.index (indexes ps) base x.state.purchases tried
              (At-weaken p.index base closed tried x.state.purchases closed-tried h) known) in
          record {
            value = after.value;
            returns = after.returns;
            fits =
                Passed-first p.index (indexes ps) base x.state.purchases after.value.state.purchases
                  closed h after.fits;
          })

  -- From a run in which every listed purchase was tried.
  Closed-open_window :
      (failed : List PurchaseRecord) (run : Run)
      → ((j : ℕ) → has j (indexes failed) ≡ true → Tells tried j run.state.purchases)
      → Returns
          (λ (r : Run). Passed closed (indexes failed) run.state.purchases r.state.purchases)
          (open_window outside config has_ata failed run)
  unfolding open_window mark_retry_window
  Closed-open_window [] run known = Returns-ok _ run (Passed-none closed run.state.purchases)
  Closed-open_window (p ∷ ps) run known = Passed-retry_all _ (p ∷ ps) _ known

  listed_failed :
      (j : ℕ) (ps : List PurchaseRecord)
      → has j (indexes (filter (purchase_has PurchaseStatus.failed) ps)) ≡ true
      → has j (indexes ps) ≡ true
  listed_failed j [] h = h
  listed_failed j (p ∷ ps) h = ground (arith, listed_failed j ps)

  failed_or_closed :
      (j : ℕ) (ps : List PurchaseRecord)
      → Tells tried j ps
      → (has j (indexes (filter (purchase_has PurchaseStatus.failed) ps)) ≡ true)
        ⊎ Tells closed j ps
  failed_or_closed j ps h = elim (tried-cases h.found h.fit) [
    | inl c ↦ inr (record { found = h.found; is = h.is; fit = c })
    | inr f ↦ inl (has-failed j ps h.found h.is f)
  ]

  Closed-run_batch :
      (run : Run)
      → Returns
          (λ (r : Run).
            (j : ℕ) → has j (indexes run.state.purchases) ≡ true → Tells closed j r.state.purchases)
          (run_batch outside config has_ata run)
  unfolding run_batch retry_failed get_failed_purchases finalize
  Closed-run_batch run =
      let base = run.state.purchases in
      Returns-bind (λ (r : Run). Passed tried (indexes base) base r.state.purchases) _ _ _
        (Passed-buy_all base false run (λ j h. Tells-listed j base h))
        (λ bought h.
          let ps = bought.state.purchases in
          let all_tried = λ (j : ℕ) (k : has j (indexes base) ≡ true). h.passed j (inl k) in
          Returns-bind
            (λ (r : Run).
              Passed closed (indexes (filter (purchase_has PurchaseStatus.failed) ps)) ps
                r.state.purchases)
            _ _ _
            (Closed-open_window (filter (purchase_has PurchaseStatus.failed) ps) bought
              (λ j k. all_tried j (subst (λ l. has j l ≡ true) h.listed (listed_failed j ps k))))
            (λ r k. Returns-ok _ _ (λ j l. k.passed j (failed_or_closed j ps (all_tried j l)))))

-- A batch ends, whatever becomes of its transactions, of the balance and of the node's answers: it
-- throws nothing, no loop runs out of its fuel, and every purchase that it had at the start is then
-- there, completed or abandoned.
pub run_batch_lem :
    (outside : Outside) (config : BatchConfig) (has_ata : Bool) (run : Run)
    → (r : Run) × (run_batch outside config has_ata run ≡ ok r)
      × ((j : ℕ)
          → has j (indexes run.state.purchases) ≡ true
          → (p : PurchaseRecord) × (get_purchase j r.state ≡ some p) × (closed p.status ≡ true))
unfolding get_purchase
run_batch_lem outside config has_ata run =
    let h = Closed-run_batch outside config has_ata run in
    (h.value, h.returns, λ j k. let t = h.fits j k in (t.found, t.is, t.fit))
