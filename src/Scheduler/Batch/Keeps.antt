-- ===== src/Scheduler/Batch/Keeps.antt =====
-- What the writes of a batch (offchain/scheduler/batch.ts) keep: a change of one purchase returns,
-- and leaves every other purchase as it was.
use pumpling.Base.{
  >>=-ok, Bool, List, Option, Result, [], arith, false, find?, map, ok, purchase_not_found, refl,
  some, true, update, ℕ, ◌==◌, ◌>>=◌, ◌∙◌, ◌∷◌, ◌≡◌,
}
use pumpling.Base.Text.{Text}
use pumpling.Orchestrator.State.{assign-found}
use pumpling.Orchestrator.Types.{Signature}
use pumpling.Scheduler.Batch.{Outside, Run, write}
use pumpling.Scheduler.State.{
  abandon_purchase, complete_purchase, fail_purchase, get_purchase, is_purchase, mark_abandoned,
  mark_completed, mark_failed, mark_in_progress, record_attempt, record_sent_attempt,
  start_purchase, update_purchase, update_summary,
}
use pumpling.Scheduler.Types.{BuyVenue, PurchaseRecord, PurchaseStatus}

abbrev pub closed : PurchaseStatus → Bool
closed PurchaseStatus.completed = true
closed PurchaseStatus.abandoned = true
closed _ = false

abbrev pub tried : PurchaseStatus → Bool
tried PurchaseStatus.pending = false
tried PurchaseStatus.in_progress = false
tried _ = true

abbrev pub any_status : PurchaseStatus → Bool
any_status _ = true

pub closed-tried : (t : PurchaseStatus) → closed t ≡ true → tried t ≡ true
closed-tried PurchaseStatus.completed h = refl
closed-tried PurchaseStatus.abandoned h = refl
closed-tried PurchaseStatus.failed h = cc
closed-tried PurchaseStatus.pending h = cc
closed-tried PurchaseStatus.in_progress h = cc

-- The call returns, and its value fits.
pub record Returns {ℓ} {A : Type ℓ} (P : A → Type 0) (m : Result A) : Type ℓ where
  pub value : A
  pub returns : m ≡ ok value
  pub fits : P value

pub Returns-ok {ℓ} : {A : Type ℓ} (P : A → Type 0) (value : A) → P value → Returns P (ok value)
Returns-ok P value h = record { value = value; returns = refl; fits = h }

pub Returns-bind {ℓ κ} :
    {A : Type ℓ} {B : Type κ} (P : A → Type 0) (Q : B → Type 0) (m : Result A) (f : A → Result B)
    → Returns P m
    → ((a : A) → P a → Returns Q (f a))
    → Returns Q (m >>= f)
Returns-bind P Q m f h k =
    let rest = k h.value h.fits in
    record {
      value = rest.value;
      returns = >>=-ok m f h.value h.returns ∙ rest.returns;
      fits = rest.fits;
    }

-- The purchase of this index is there, with a status that fits.
pub record Tells (fits : PurchaseStatus → Bool) (j : ℕ) (ps : List PurchaseRecord) : Type 0 where
  pub found : PurchaseRecord
  pub is : find? (is_purchase j) ps ≡ some found
  pub fit : fits found.status ≡ true

pub Tells-weaken :
    (P Q : PurchaseStatus → Bool) (j : ℕ) (ps : List PurchaseRecord)
    → ((t : PurchaseStatus) → P t ≡ true → Q t ≡ true)
    → Tells P j ps
    → Tells Q j ps
Tells-weaken P Q j ps f h = record { found = h.found; is = h.is; fit = f h.found.status h.fit }

abbrev pub indexes : List PurchaseRecord → List ℕ
indexes = map (λ p. p.index)

indexes-update :
    (i : ℕ) (f : PurchaseRecord → PurchaseRecord) (ps : List PurchaseRecord)
    → ((q : PurchaseRecord) → (f q).index ≡ q.index)
    → indexes (update (is_purchase i) f ps) ≡ indexes ps
indexes-update i f [] same = refl
indexes-update i f (q ∷ ps) same = ground (arith, same q, indexes-update i f ps same)

find-update_here :
    (i : ℕ) (f : PurchaseRecord → PurchaseRecord) (ps : List PurchaseRecord) (p : PurchaseRecord)
    → ((q : PurchaseRecord) → (f q).index ≡ q.index)
    → find? (is_purchase i) ps ≡ some p
    → find? (is_purchase i) (update (is_purchase i) f ps) ≡ some (f p)
find-update_here i f [] p same e = cc
find-update_here i f (q ∷ ps) p same e = ground (arith, same q, find-update_here i f ps p same)

find-update_other :
    (i j : ℕ) (f : PurchaseRecord → PurchaseRecord) (ps : List PurchaseRecord)
    → ((q : PurchaseRecord) → (f q).index ≡ q.index)
    → (i == j) ≡ false
    → find? (is_purchase j) (update (is_purchase i) f ps) ≡ find? (is_purchase j) ps
find-update_other i j f [] same other = refl
find-update_other i j f (q ∷ ps) same other =
    ground (arith, same q, find-update_other i j f ps same other)

module _ (i : ℕ) (base : List PurchaseRecord) where
  -- The purchase `i` fits, and every other is as in `base`.
  pub record At (fits : PurchaseStatus → Bool) (ps : List PurchaseRecord) : Type 0 where
    pub here : Tells fits i ps
    pub other : (j : ℕ) → (i == j) ≡ false → find? (is_purchase j) ps ≡ find? (is_purchase j) base
    pub listed : indexes ps ≡ indexes base

  pub At-weaken :
      (P Q : PurchaseStatus → Bool) (ps : List PurchaseRecord)
      → ((t : PurchaseStatus) → P t ≡ true → Q t ≡ true)
      → At P ps
      → At Q ps
  At-weaken P Q ps f h = record {
    here = Tells-weaken P Q i ps f h.here;
    other = h.other;
    listed = h.listed;
  }

  abbrev pub Now : (PurchaseStatus → Bool) → Run → Type 0
  Now fits run = At fits run.state.purchases

  module _ (outside : Outside) where
    pub At-write :
        (P Q : PurchaseStatus → Bool) (change : PurchaseRecord → PurchaseRecord) (run : Run)
        → ((q : PurchaseRecord) → (change q).index ≡ q.index)
        → ((q : PurchaseRecord) → P q.status ≡ true → Q (change q).status ≡ true)
        → Now P run
        → Returns (Now Q) (write outside (update_purchase i change) run)
    unfolding update_purchase update_summary
    At-write P Q change run same fits h =
        let stamp =
          λ (q : PurchaseRecord). record (change q) { updated_at = outside.clock run.calls } in
        rw
          (assign-found (is_purchase i) stamp purchase_not_found run.state.purchases h.here.found
            h.here.is)
          (Returns-ok (Now Q) _ (record {
            here = record {
              found = stamp h.here.found;
              is = find-update_here i stamp run.state.purchases h.here.found same h.here.is;
              fit = fits h.here.found h.here.fit;
            };
            other = λ j d. find-update_other i j stamp run.state.purchases same d ∙ h.other j d;
            listed = indexes-update i stamp run.state.purchases same ∙ h.listed;
          }))

    module _ (P : PurchaseStatus → Bool) (run : Run) (h : Now P run) where
      pub At-mark_in_progress :
          (slippage : ℕ)
          → Returns (Now any_status) (write outside (mark_in_progress i slippage) run)
      unfolding mark_in_progress
      At-mark_in_progress slippage =
          At-write P any_status (start_purchase slippage) run (λ q. refl) (λ q k. refl) h

      pub At-mark_abandoned :
          (message : Text) → Returns (Now closed) (write outside (mark_abandoned i message) run)
      unfolding mark_abandoned
      At-mark_abandoned message =
          At-write P closed (abandon_purchase message) run (λ q. refl) (λ q k. refl) h

      pub At-mark_failed :
          (message : Text) → Returns (Now tried) (write outside (mark_failed i message) run)
      unfolding mark_failed get_purchase
      At-mark_failed message =
          rw (h.here.is, mark_failed)
            (At-write P tried (fail_purchase message h.here.found) run (λ q. refl) (λ q k. refl) h)

      pub At-mark_completed :
          (signature : Signature) (venue : Option BuyVenue)
          → Returns (Now closed) (write outside (mark_completed i signature venue) run)
      unfolding mark_completed get_purchase
      At-mark_completed signature venue =
          rw (h.here.is, mark_completed)
            (At-write P closed (complete_purchase signature venue h.here.found) run (λ q. refl)
              (λ q k. refl) h)

      pub At-record_sent_attempt :
          (signature : Signature) (height : ℕ)
          → Returns (Now P) (write outside (record_sent_attempt i signature height) run)
      unfolding record_sent_attempt get_purchase
      At-record_sent_attempt signature height =
          rw (h.here.is, record_sent_attempt)
            (At-write P P (record_attempt signature height (outside.clock run.calls) h.here.found)
              run (λ q. refl) (λ q k. k) h)
