-- ===== src/Orchestrator/Resume/Spent.antt =====
-- offchain/orchestrator/resume.ts: what counts as spent, against the purchases and the chain.
use pumpling.Base.{
  ==_refl, All, All-split, Bool, List, Option, [], ap, arith, false, filter, has, has-append,
  has-dedup, if◌then◌else◌, none, refl, some, subst, sum_map, sum_map-append, sym, true, ℕ, ◌||◌,
  ◌∙◌, ◌∷◌, ◌≡◌, ◌≤◌,
}
use pumpling.Orchestrator.PurchaseTokens.{BatchLoader, all_purchases, flat_map, purchases_of}
use pumpling.Orchestrator.Resume.{
  Asks, could_land, counts_as_spent, has_last, is_closed_buy, landing, landing_of, landing_of_token,
  last_attempt, last_of, purchases_that_may_have_landed, resume_files, spent_in_batch, spent_of,
}
use pumpling.Orchestrator.Types.{LotteryState, Signature, Sol, StateFile, Time, TokenBuyRecord}
use pumpling.Scheduler.State.{purchase_has}
use pumpling.Scheduler.Types.{BatchState, PurchaseRecord, PurchaseStatus, SentAttemptRecord}
use pumpling.Solana.SignatureOutcome.{SignatureOutcome, absent, landed, unknown}

-- The chain does not rule out that the transaction landed.
abbrev not_ruled_out : SignatureOutcome → Bool
not_ruled_out absent = false
not_ruled_out SignatureOutcome.failed = false
not_ruled_out landed = true
not_ruled_out unknown = true

-- The element that no other one follows.
abbrev latest : List SentAttemptRecord → Option SentAttemptRecord
latest [] = none
latest (a ∷ as') = elim (latest as') [ none ↦ some a | some b ↦ some b ]

-- The last transaction of a purchase that was sent, with its block height limit: that of the latest
-- attempt, or the pending one where no attempt is on record.
abbrev sent_last : Option SentAttemptRecord → PurchaseRecord → Option (Signature × Option ℕ)
sent_last (some a) p = some (a.signature, some a.last_valid_block_height)
sent_last none p = elim p.pending_signature [
  | none ↦ none
  | some s ↦ some (s, p.pending_last_valid_block_height)
]

-- The purchase bought, or its last transaction landed or may still.
unfoldable pub may_have_bought : Asks → PurchaseRecord → Bool
may_have_bought outcome p =
    purchase_has PurchaseStatus.completed p || (elim (sent_last (latest p.sent_attempts) p) [
      | none ↦ false
      | some a ↦ not_ruled_out (outcome a.0 a.1)
    ])

latest-last_of :
    (a : SentAttemptRecord) (bs : List SentAttemptRecord) → latest (a ∷ bs) ≡ some (last_of a bs)
latest-last_of a [] = refl
latest-last_of a (b ∷ bs) =
    ap (λ (o : Option SentAttemptRecord). elim o [ none ↦ some a | some c ↦ some c ])
      (latest-last_of b bs)

last_attempt-sent_last :
    (p : PurchaseRecord) → last_attempt p ≡ sent_last (latest p.sent_attempts) p
unfolding last_attempt
last_attempt-sent_last p = by_attempts p.sent_attempts
  where
    by_attempts :
        (as' : List SentAttemptRecord)
        → (elim as' [
          | a ∷ bs ↦ some ((last_of a bs).signature, some ((last_of a bs).last_valid_block_height))
          | [] ↦ elim p.pending_signature [
            | none ↦ none
            | some s ↦ some (s, p.pending_last_valid_block_height)
          ]
        ])
          ≡ sent_last (latest as') p
    by_attempts [] = refl
    by_attempts (a ∷ bs) =
        ap (λ (o : Option SentAttemptRecord). sent_last o p) (sym (latest-last_of a bs))

-- What the purchases of a coin spent or may have spent.
unfoldable pub sol_at_stake : Asks → BatchLoader → TokenBuyRecord → Sol
unfolding may_have_bought
sol_at_stake outcome load t =
    sum_map (λ p. if may_have_bought outcome p then p.sol_amount else 0)
      (all_purchases load (resume_files t))

-- Every member of these lists is in the whole.
abbrev IsWithin : List ℕ → List ℕ → Type 0
IsWithin xs whole = (s : ℕ) → has s xs ≡ true → has s whole ≡ true

module _ {ℓ} {A : Type ℓ} (f : A → List ℕ) where
  AllWithin-flat_map :
      (xs : List A) (whole : List ℕ)
      → IsWithin (flat_map f xs) whole
      → All (λ x. IsWithin (f x) whole) xs
  AllWithin-flat_map [] whole h = tt
  AllWithin-flat_map (x ∷ xs) whole h = (
    λ s e. h s (rw (has-append s (f x) (flat_map f xs), e) refl),
    AllWithin-flat_map xs whole
        (λ s e. h s (rw (has-append s (f x) (flat_map f xs), e) (or_true (has s (f x))))),
  )
    where
      or_true : (b : Bool) → (b || true) ≡ true
      or_true true = refl
      or_true false = refl

could_land-open : (v : SignatureOutcome) → not_ruled_out v ≡ true → could_land v ≡ true
could_land-open absent h = cc h
could_land-open SignatureOutcome.failed h = cc h
could_land-open landed h = refl
could_land-open unknown h = refl

-- A purchase that may have bought counts as spent.
module _ (outcome : Asks) (may : List Signature) where
  counts-may_have_bought :
      (p : PurchaseRecord)
      → IsWithin (landing_of outcome p) may
      → may_have_bought outcome p ≡ true
      → counts_as_spent may p ≡ true
  unfolding counts_as_spent may_have_bought landing_of
  counts-may_have_bought p h e =
      by_status (purchase_has PurchaseStatus.completed p) (last_attempt p) h (
        subst
          (λ (o : Option (Signature × Option ℕ)).
            (purchase_has PurchaseStatus.completed p
              || (elim o [ none ↦ false | some a ↦ not_ruled_out (outcome a.0 a.1) ]))
            ≡ true)
          (sym (last_attempt-sent_last p)) e)
    where
      by_status :
          (done : Bool) (last : Option (Signature × Option ℕ))
          → IsWithin (if done then [] else landing outcome last) may
          → (done || (elim last [ none ↦ false | some a ↦ not_ruled_out (outcome a.0 a.1) ])) ≡ true
          → (done || has_last may last) ≡ true
      by_status true last within e' = refl
      by_status false none within e' = e'
      by_status false (some (s, limit)) within e' =
          within s (rw (could_land-open (outcome s limit) e') (ground (arith, ==_refl s)))

  abbrev staked : PurchaseRecord → Sol
  staked p = if may_have_bought outcome p then p.sol_amount else 0

  spent-purchases :
      (ps : List PurchaseRecord)
      → All (λ p. IsWithin (landing_of outcome p) may) ps
      → sum_map staked ps ≤ sum_map (λ p. p.sol_amount) (filter (counts_as_spent may) ps)
  spent-purchases [] h = omega arith
  spent-purchases (p ∷ ps) h = ground (arith, spent-purchases ps h.1, counts-may_have_bought p h.0)

  spent-file :
      (b : Option BatchState)
      → All (λ p. IsWithin (landing_of outcome p) may) (purchases_of b)
      → sum_map staked (purchases_of b) ≤ spent_in_batch may b
  unfolding spent_in_batch
  spent-file none h = omega arith
  spent-file (some b) h = spent-purchases b.purchases h

  module _ (load : BatchLoader) where
    spent-files :
        (files : List StateFile)
        → All (λ p. IsWithin (landing_of outcome p) may) (all_purchases load files)
        → sum_map staked (all_purchases load files)
          ≤ sum_map (λ f. spent_in_batch may (load f)) files
    spent-files [] h = omega arith
    spent-files (f ∷ fs) h =
        let split =
          All-split (λ p. IsWithin (landing_of outcome p) may) (purchases_of (load f))
            (all_purchases load fs) h in
        omega (
          arith,
          sum_map-append staked (purchases_of (load f)) (all_purchases load fs),
          spent-file (load f) split.0,
          spent-files fs split.1,
        )

    -- What the chain may have taken for an open coin is within what counts as spent on it.
    pub stake-spent :
        (t : TokenBuyRecord) (now : Time)
        → is_closed_buy t.status ≡ false
        → IsWithin (landing_of_token outcome load t) may
        → sol_at_stake outcome load t ≤ spent_of load may now t
    unfolding sol_at_stake spent_of landing_of_token
    stake-spent t now still h = spent-files (resume_files t) (
        AllWithin-flat_map (landing_of outcome) (all_purchases load (resume_files t)) may (
          subst
            (λ (b : Bool).
              IsWithin
                (if b
                  then []
                  else flat_map (landing_of outcome) (all_purchases load (resume_files t)))
                may)
            still h))

-- Every token of the round has its purchases among those that may have landed.
pub purchases_that_may_have_landed-IsWithin :
    (outcome : Asks) (load : BatchLoader) (state : LotteryState)
    → All
        (λ t.
          IsWithin
            (landing_of_token outcome load t)
            (purchases_that_may_have_landed outcome load state))
        state.token_buys
unfolding purchases_that_may_have_landed
purchases_that_may_have_landed-IsWithin outcome load state =
    AllWithin-flat_map (landing_of_token outcome load) state.token_buys _
      (λ s e. has-dedup s (flat_map (landing_of_token outcome load) state.token_buys) ∙ e)
