-- ===== src/Orchestrator/RefundLedger/Spending.antt =====
-- How `buySpend` (offchain/orchestrator/refundLedger.ts) adds up what buying a coin cost.
use pumpling.Base.{
  Bool, Bool-cases, List, Once, Option, [], any, ap, arith, dedup-Once, false, filter, has,
  has-dedup, has-filter, if◌then◌else◌, inl, inr, none, not, refl, some, subst, sym, true, ◌&&◌,
  ◌++◌, ◌+◌, ◌==◌, ◌||◌, ◌∙◌, ◌∷◌, ◌≡◌, ◌≤◌,
}
use pumpling.Orchestrator.PurchaseTokens.{
  BatchLoader, all_purchases, files_of, optional, purchases_of,
}
use pumpling.Orchestrator.RefundLedger.{
  Debit, Debits, Spend, batches_of, buy_spend, creates_ata_of, done_signature, earlier_attempts,
  loaded, pay, plus, spend_attempt, spend_attempts, spend_batches, spend_completed, spend_debit,
  spend_or_plan, spend_purchase, spend_purchases, without,
}
use pumpling.Orchestrator.RefundLedger.OnRecord.{has-attempts, names}
use pumpling.Orchestrator.RefundLedger.Totals.{Debit-ext, total, total-append}
use pumpling.Orchestrator.Types.{Signature, StateFile, TokenBuyRecord}
use pumpling.Scheduler.State.{purchase_has}
use pumpling.Scheduler.Types.{BatchState, PurchaseRecord, PurchaseStatus}

-- What is known to have been paid for a signature.
abbrev pub known_of : Option Debit → Debit
known_of none = pay 0
known_of (some d) = d

abbrev read : Debits → Signature → Debit
read debits s = known_of (debits s)

-- What is known to have been paid for a purchase: for the signature it was completed with, and for
-- each earlier attempt at it.
abbrev read_purchase : Debits → PurchaseRecord → Debit
read_purchase debits p =
    plus (total (read debits) (optional (done_signature p)))
      (total (read debits) (earlier_attempts p))

abbrev read_purchases : Debits → List PurchaseRecord → Debit
read_purchases debits = total (read_purchase debits)

abbrev read_batches : Debits → List BatchState → Debit
read_batches debits = total (λ b. read_purchases debits b.purchases)

-- The first is not above the second.
abbrev pub AtMost : Debit → Debit → Type 0
AtMost a b = a.paid + b.got ≤ b.paid + a.got

-- A sum that is never below what is known, and is what is known if nothing was estimated.
abbrev Covers : Debit → Spend → Type 0
Covers known s =
    AtMost known s.spent
    × (s.exact ≡ true → (s.spent.paid ≡ known.paid) × (s.spent.got ≡ known.got))

Covers-spend_completed :
    (debits : Debits) (creates : Bool) (p : PurchaseRecord) (o : Option Signature) (known : Debit)
    (s : Spend)
    → Covers known s
    → Covers (plus known (total (read debits) (optional o))) (spend_completed debits creates p o s)
Covers-spend_completed debits creates p none known s c = ground arith
Covers-spend_completed debits creates p (some signature) known s c = by_debit (debits signature)
  where
    by_debit :
        (o : Option Debit)
        → Covers (plus known (plus (known_of o) (pay 0))) (spend_debit creates p s o)
    by_debit none = (omega arith, λ e. cc)
    by_debit (some d) = ground arith

Covers-spend_attempt :
    (o : Option Debit) (known : Debit) (s : Spend)
    → Covers known s
    → Covers (plus known (known_of o)) (spend_attempt o s)
Covers-spend_attempt none known s c = ground arith
Covers-spend_attempt (some d) known s c = ground arith

-- The same sum, put together in another order.
Covers-same : (a b : Debit) (s : Spend) → a.paid ≡ b.paid → a.got ≡ b.got → Covers a s → Covers b s
Covers-same a b s e f c =
    (omega (arith, c.0), λ x. (omega (arith, (c.1 x).0), omega (arith, (c.1 x).1)))

Covers-spend_attempts :
    (debits : Debits) (ss : List Signature) (known : Debit) (s : Spend)
    → Covers known s
    → Covers (plus known (total (read debits) ss)) (spend_attempts debits ss s)
unfolding spend_attempts
Covers-spend_attempts debits [] known s c = Covers-same known _ s (omega arith) (omega arith) c
Covers-spend_attempts debits (a ∷ as') known s c =
    Covers-same _ _ (spend_attempts debits as' (spend_attempt (debits a) s)) (omega arith)
      (omega arith)
      (Covers-spend_attempts debits as' (plus known (read debits a)) (spend_attempt (debits a) s)
        (Covers-spend_attempt (debits a) known s c))

Covers-spend_purchases :
    (debits : Debits) (creates : Bool) (ps : List PurchaseRecord) (known : Debit) (s : Spend)
    → Covers known s
    → Covers (plus known (read_purchases debits ps)) (spend_purchases debits creates ps s)
unfolding spend_purchases
Covers-spend_purchases debits creates [] known s c =
    Covers-same known _ s (omega arith) (omega arith) c
Covers-spend_purchases debits creates (p ∷ ps) known s c =
    let done = plus known (total (read debits) (optional (done_signature p))) in
    Covers-same _ _ (spend_purchases debits creates ps (spend_purchase debits creates p s))
      (omega arith) (omega arith)
      (Covers-spend_purchases debits creates ps
        (plus done (total (read debits) (earlier_attempts p))) (spend_purchase debits creates p s)
        (Covers-spend_attempts debits (earlier_attempts p) done
          (spend_completed debits creates p (done_signature p) s)
          (Covers-spend_completed debits creates p (done_signature p) known s c)))

Covers-spend_batches :
    (debits : Debits) (bs : List BatchState) (known : Debit) (s : Spend)
    → Covers known s
    → Covers (plus known (read_batches debits bs)) (spend_batches debits bs s)
unfolding spend_batches
Covers-spend_batches debits [] known s c = Covers-same known _ s (omega arith) (omega arith) c
Covers-spend_batches debits (b ∷ bs) known s c =
    Covers-same _ _
      (spend_batches debits bs (
        spend_purchases debits (creates_ata_of b) b.purchases
          (record s { first_completed = true })))
      (omega arith) (omega arith)
      (Covers-spend_batches debits bs (plus known (read_purchases debits b.purchases))
        (spend_purchases debits (creates_ata_of b) b.purchases
          (record s { first_completed = true }))
        (Covers-spend_purchases debits (creates_ata_of b) b.purchases known
          (record s { first_completed = true }) c))

Covers-spend_or_plan :
    (debits : Debits) (t : TokenBuyRecord) (bs : List BatchState)
    → Covers (read_batches debits bs) (spend_or_plan debits t bs)
Covers-spend_or_plan debits t [] = (omega arith, λ e. cc)
Covers-spend_or_plan debits t (b ∷ bs) =
    Covers-same _ _
      (spend_batches debits (b ∷ bs)
        (record { spent = pay 0; exact = true; first_completed = true }))
      (omega arith) (omega arith)
      (Covers-spend_batches debits (b ∷ bs) (pay 0)
        (record { spent = pay 0; exact = true; first_completed = true })
        (omega arith, λ e. (refl, refl)))

-- What is known to have been paid for a purchase: for the signature that it completed with, and for
-- those of its earlier attempts, the pending one among them, each once.
pub record IsPaid (debits : Debits) (p : PurchaseRecord) (paid : Debit) : Type 0 where
  pub earlier : List Signature
  pub each_once : Once earlier
  pub on_record :
      (s : Signature)
      → has s earlier ≡ (
          (names s p.pending_signature || any (λ a. a.signature == s) p.sent_attempts)
          && not (names s p.signature))
  pub in_all :
      paid
      ≡ plus
          (if purchase_has PurchaseStatus.completed p
            then (elim p.signature [ none ↦ pay 0 | some s ↦ known_of (debits s) ])
            else pay 0)
          (total (λ s. known_of (debits s)) earlier)

has-filter-not :
    (s t : Signature) (ss : List Signature)
    → has s (filter (λ x. not (x == t)) ss) ≡ (has s ss && not (t == s))
has-filter-not s t [] = refl
has-filter-not s t (x ∷ ss) = ground (arith, has-filter-not s t ss)

Once-filter : (p : Signature → Bool) (ss : List Signature) → Once ss → Once (filter p ss)
Once-filter p [] h = tt
Once-filter p (x ∷ ss) h = elim (Bool-cases (p x)) [
  | inl e ↦ rw e (has-filter x p ss h.0, Once-filter p ss h.1)
  | inr e ↦ rw e (Once-filter p ss h.1)
]

Once-without : (o : Option Signature) (ss : List Signature) → Once ss → Once (without o ss)
Once-without none ss h = h
Once-without (some t) ss h = Once-filter (λ x. not (x == t)) ss h

has-without :
    (s : Signature) (o : Option Signature) (ss : List Signature)
    → has s (without o ss) ≡ (has s ss && not (names s o))
has-without s none ss = and_true (has s ss)
  where
    and_true : (b : Bool) → b ≡ (b && true)
    and_true true = refl
    and_true false = refl
has-without s (some t) ss = has-filter-not s t ss

read-done :
    (debits : Debits) (done : Bool) (o : Option Signature)
    → total (read debits) (optional (if done then o else none))
      ≡ (if done then (elim o [ none ↦ pay 0 | some s ↦ known_of (debits s) ]) else pay 0)
read-done debits true none = refl
read-done debits true (some s) = Debit-ext _ _ (omega arith) (omega arith)
read-done debits false o = refl

read_purchase-IsPaid :
    (debits : Debits) (p : PurchaseRecord) → IsPaid debits p (read_purchase debits p)
read_purchase-IsPaid debits p = record {
  earlier = earlier_attempts p;
  each_once = Once-without p.signature _ (dedup-Once _);
  on_record = λ s.
      has-without s p.signature _
      ∙ ap (λ (b : Bool). b && not (names s p.signature)) (has-dedup s _ ∙ has-attempts s p);
  in_all =
      ap (λ (d : Debit). plus d (total (read debits) (earlier_attempts p)))
        (read-done debits (purchase_has PurchaseStatus.completed p) p.signature);
}

read_batches-files :
    (debits : Debits) (load : BatchLoader) (files : List StateFile)
    → read_batches debits (loaded load files) ≡ read_purchases debits (all_purchases load files)
read_batches-files debits load [] = refl
read_batches-files debits load (f ∷ fs) =
    of_file (load f) (read_batches-files debits load fs)
    ∙ sym (total-append (read_purchase debits) (purchases_of (load f)) (all_purchases load fs))
  where
    of_file :
        (o : Option BatchState)
        → read_batches debits (loaded load fs) ≡ read_purchases debits (all_purchases load fs)
        → read_batches debits (optional o ++ loaded load fs)
          ≡ plus
              (read_purchases debits (purchases_of o))
              (read_purchases debits (all_purchases load fs))
    of_file none rest = rest ∙ Debit-ext _ _ (omega arith) (omega arith)
    of_file (some b) rest = ap (plus (read_purchases debits b.purchases)) rest

-- What buying a coin is taken to have cost is never below what the
-- chain is known to have charged for the purchases in its batch files that can be read, for the
-- transactions they completed with and for every earlier attempt at them, each once; and it is that
-- sum if it is called exact.
pub buy_spend_lem :
    (t : TokenBuyRecord) (load : BatchLoader) (debits : Debits)
    → (paid : PurchaseRecord → Debit) × ((p : PurchaseRecord) → IsPaid debits p (paid p))
      × AtMost (total paid (all_purchases load (files_of t))) (buy_spend t load debits).spent
      × ((buy_spend t load debits).exact ≡ true
          → (buy_spend t load debits).spent ≡ total paid (all_purchases load (files_of t)))
unfolding buy_spend
buy_spend_lem t load debits =
    let (low, same) = Covers-spend_or_plan debits t (batches_of t load) in
    let whole = read_batches-files debits load (files_of t) in
    (
      read_purchase debits,
      read_purchase-IsPaid debits,
      subst (λ (d : Debit). AtMost d (buy_spend t load debits).spent) whole low,
      λ e. Debit-ext _ _ (same e).0 (same e).1 ∙ whole,
    )
