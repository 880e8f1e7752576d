-- ===== src/Orchestrator/RefundLedger.antt =====
-- offchain/orchestrator/refundLedger.ts: what each coin was given and what it cost. Amounts are in
-- lamports; what the chain said of a signature is the argument `debits`, `none` where it could not
-- be read. `round9` is the nearest lamport.
pub mod OnRecord
pub mod Totals
pub mod Charges
pub mod Pool
pub mod Spending
use pumpling.Base.{
  Bool, List, Option, [], dedup, false, filter, has, if◌then◌else◌, length, ltb, map, none, not,
  some, sum_map, true, ◌&&◌, ◌*◌, ◌++◌, ◌+◌, ◌-◌, ◌==◌, ◌||◌, ◌∷◌,
}
use pumpling.Base.Rounding.{nearest}
use pumpling.Orchestrator.PurchaseTokens.{BatchLoader, files_of, flat_map, optional}
use pumpling.Orchestrator.State.{has_status, or_zero}
use pumpling.Orchestrator.Types.{
  BurnRecord, BurnStatus, LotteryState, Mint, SendRecord, SendStatus, Signature, Sol, StateFile,
  TokenBuyRecord, Wallet,
}
use pumpling.Scheduler.Batch.{bought}
use pumpling.Scheduler.State.{purchase_has}
use pumpling.Scheduler.Types.{BatchState, PurchaseRecord, PurchaseStatus}

-- What the keeper's balance fell by, `paid - got`: below zero where it rose.
pub record Debit : Type 0 where
  pub paid : Sol
  pub got : Sol

-- What the keeper paid for a signature, if it is known.
abbrev pub Debits : Type 0
Debits = Signature → Option Debit

abbrev pub pay : Sol → Debit
pay n = record { paid = n; got = 0 }

abbrev pub plus : Debit → Debit → Debit
plus a b = record { paid = a.paid + b.paid; got = a.got + b.got }

pub record RefundBasis : Type 0 where
  pub allocated : Sol
  pub spent : Debit
  pub delivery_leftover : Sol
  pub exact : Bool

pub record DeliverySettlement : Type 0 where
  pub reserve : Sol
  pub spent : Debit
  pub held : Sol
  pub leftover : Sol
  pub exact : Bool

-- `TX_FEE_SOL`, `BUY_TX_FEE_SOL` and `ATA_FEE_SOL` of scheduler/fees.ts
abbrev pub tx_fee : Sol
tx_fee = 10000

abbrev pub buy_tx_fee : Sol
buy_tx_fee = 105000

abbrev pub ata_fee : Sol
ata_fee = 2040000

-- `batchesOf`
abbrev pub loaded : BatchLoader → List StateFile → List BatchState
loaded load [] = []
loaded load (f ∷ fs) = optional (load f) ++ loaded load fs

abbrev pub batches_of : TokenBuyRecord → BatchLoader → List BatchState
batches_of t load = loaded load (files_of t)

abbrev attempt_signatures : PurchaseRecord → List Signature
attempt_signatures p = map (λ a. a.signature) p.sent_attempts

abbrev pub purchase_signatures : PurchaseRecord → List Signature
purchase_signatures p =
    optional p.signature ++ (optional p.pending_signature ++ attempt_signatures p)

abbrev pub send_signatures : SendRecord → List Signature
send_signatures s = optional s.signature ++ (optional s.pending_signature ++ s.failed_signatures)

abbrev pub burn_signatures : BurnRecord → List Signature
burn_signatures b = optional b.signature ++ optional b.pending_signature

abbrev pub token_signatures : BatchLoader → TokenBuyRecord → List Signature
token_signatures load t =
    flat_map (λ b. flat_map purchase_signatures b.purchases) (batches_of t load)

-- `collectRoundSignatures`
unfoldable pub collect_round_signatures : LotteryState → BatchLoader → List Signature
collect_round_signatures state load = dedup (
    flat_map (token_signatures load) state.token_buys
    ++ (flat_map send_signatures state.sends ++ flat_map burn_signatures state.burns))

-- What was charged so far, for which signatures, and whether all of it was read from the chain.
pub record Charge : Type 0 where
  pub seen : List Signature
  pub spent : Debit
  pub exact : Bool

abbrev pub charge_with : Signature → Charge → Option Debit → Charge
charge_with s c (some d) = record { seen = s ∷ c.seen; spent = plus c.spent d; exact = c.exact }
charge_with s c none = record {
  seen = s ∷ c.seen;
  spent = plus c.spent (pay tx_fee);
  exact = false;
}

abbrev pub charge_one : Debits → Signature → Charge → Charge
charge_one debits s c = charge_with s c (debits s)

-- A signature stands on every record that shares its transaction, and is charged once.
unfoldable pub charge_all : Debits → List Signature → Charge → Charge
charge_all debits [] c = c
charge_all debits (s ∷ ss) c =
    charge_all debits ss (if has s c.seen then c else charge_one debits s c)

abbrev pub is_known : Debits → Option Signature → Bool
is_known debits none = false
is_known debits (some s) = elim (debits s) [ none ↦ false | some _ ↦ true ]

abbrev pub rent_known : Debits → List SendRecord → List Wallet
rent_known debits sends =
    map (λ s. s.recipient)
      (filter (λ s. is_known debits s.signature || is_known debits s.pending_signature) sends)

abbrev pub had_no_ata : SendRecord → Bool
had_no_ata s = elim (s.had_ata_at_start) [ none ↦ false | some b ↦ not b ]

-- The recipients whose account rent is owed and in no debit.
abbrev pub rent_owed : Debits → List SendRecord → List Wallet
rent_owed debits sends = dedup (
    map (λ s. s.recipient)
      (filter (λ s. had_no_ata s && not (has s.recipient (rent_known debits sends))) sends))

abbrev is_unfinished : SendRecord → Bool
is_unfinished s = has_status SendStatus.pending s || has_status SendStatus.in_progress s

abbrev delivered : List SendRecord → List Wallet
delivered sends = map (λ s. s.recipient) (filter (has_status SendStatus.completed) sends)

-- `holdForUnfinishedSends`
unfoldable pub hold_for_unfinished_sends : List SendRecord → Sol
hold_for_unfinished_sends sends =
    let unfinished = filter is_unfinished sends in
    let needs_ata = dedup (
      map (λ s. s.recipient)
        (filter (λ s. had_no_ata s && not (has s.recipient (delivered sends))) unfinished)) in
    if length unfinished == 0 then 0 else length unfinished * tx_fee + length needs_ata * ata_fee

abbrev is_open_burn : BurnRecord → Bool
is_open_burn b = elim (b.status) [ BurnStatus.in_progress ↦ true | _ ↦ false ]

-- The charges of all deliveries, then those of all burns.
abbrev pub charge_round : Debits → LotteryState → Charge
charge_round debits state = charge_all debits (flat_map burn_signatures state.burns) (
    charge_all debits (flat_map send_signatures state.sends)
      (record { seen = []; spent = pay 0; exact = true }))

-- `settleDelivery`; `exact` falls only where a fee was estimated.
unfoldable pub settle_delivery : LotteryState → Debits → DeliverySettlement
unfolding charge_all hold_for_unfinished_sends
settle_delivery state debits =
    let charge = charge_round debits state in
    let spent = plus charge.spent (pay (length (rent_owed debits state.sends) * ata_fee)) in
    let held =
      hold_for_unfinished_sends state.sends + length (filter is_open_burn state.burns) * tx_fee in
    record {
      reserve = state.send_reserve;
      spent = spent;
      held = held;
      leftover = state.send_reserve + spent.got - spent.paid - held;
      exact = charge.exact;
    }

-- What buying one coin took, while it is being added up.
pub record Spend : Type 0 where
  pub spent : Debit
  pub exact : Bool
  pub first_completed : Bool

abbrev estimate : Bool → PurchaseRecord → Spend → Spend
estimate creates_ata p s = record {
  spent =
      plus s.spent (
        pay
          (p.sol_amount + buy_tx_fee + (if creates_ata && s.first_completed then ata_fee else 0)));
  exact = false;
  first_completed = false;
}

-- A completed purchase: what was read, if it is above zero, or the most that it can have cost.
abbrev pub spend_debit : Bool → PurchaseRecord → Spend → Option Debit → Spend
spend_debit creates_ata p s none = estimate creates_ata p s
spend_debit creates_ata p s (some d) =
    if ltb d.got d.paid
    then record { spent = plus s.spent d; exact = s.exact; first_completed = false }
    else estimate creates_ata p s

abbrev pub spend_completed : Debits → Bool → PurchaseRecord → Option Signature → Spend → Spend
spend_completed debits creates_ata p none s = s
spend_completed debits creates_ata p (some signature) s =
    spend_debit creates_ata p s (debits signature)

abbrev pub without : Option Signature → List Signature → List Signature
without none ss = ss
without (some t) ss = filter (λ s. not (s == t)) ss

-- The earlier attempts at a purchase, each once, without the one that it completed with.
abbrev pub earlier_attempts : PurchaseRecord → List Signature
earlier_attempts p =
    without p.signature (dedup (optional p.pending_signature ++ attempt_signatures p))

abbrev pub spend_attempt : Option Debit → Spend → Spend
spend_attempt (some d) s = record s { spent = plus s.spent d }
spend_attempt none s = record s { spent = plus s.spent (pay buy_tx_fee); exact = false }

unfoldable pub spend_attempts : Debits → List Signature → Spend → Spend
spend_attempts debits [] s = s
spend_attempts debits (a ∷ as') s = spend_attempts debits as' (spend_attempt (debits a) s)

-- The signature of a purchase that is completed.
abbrev pub done_signature : PurchaseRecord → Option Signature
done_signature p = if purchase_has PurchaseStatus.completed p then p.signature else none

abbrev pub spend_purchase : Debits → Bool → PurchaseRecord → Spend → Spend
spend_purchase debits creates_ata p s =
    spend_attempts debits (earlier_attempts p)
      (spend_completed debits creates_ata p (done_signature p) s)

unfoldable pub spend_purchases : Debits → Bool → List PurchaseRecord → Spend → Spend
unfolding spend_attempts
spend_purchases debits creates_ata [] s = s
spend_purchases debits creates_ata (p ∷ ps) s =
    spend_purchases debits creates_ata ps (spend_purchase debits creates_ata p s)

abbrev creates_ata_of : BatchState → Bool
creates_ata_of b = elim (b.config.had_ata_at_start) [ none ↦ true | some had ↦ not had ]

unfoldable pub spend_batches : Debits → List BatchState → Spend → Spend
unfolding spend_purchases
spend_batches debits [] s = s
spend_batches debits (b ∷ bs) s =
    spend_batches debits bs
      (spend_purchases debits (creates_ata_of b) b.purchases (record s { first_completed = true }))

abbrev pub spend_or_plan : Debits → TokenBuyRecord → List BatchState → Spend
spend_or_plan debits t [] = record {
  spent = pay (or_zero t.spent_sol);
  exact = false;
  first_completed = true;
}
spend_or_plan debits t (b ∷ bs) =
    spend_batches debits (b ∷ bs) (record { spent = pay 0; exact = true; first_completed = true })

-- `buySpend`
unfoldable pub buy_spend : TokenBuyRecord → BatchLoader → Debits → Spend
unfolding spend_batches
buy_spend t load debits = spend_or_plan debits t (batches_of t load)

abbrev pub total_allocated : LotteryState → Sol
total_allocated state = sum_map (λ t. t.adjusted_sol_amount) state.token_buys

-- A coin's part of what the delivery reserve did not use, to the nearest lamport.
abbrev pub leftover_share : Sol → Sol → Sol → Sol
leftover_share leftover total allocated =
    if total == 0 then 0 else nearest (leftover * allocated) total

abbrev pub basis_of : LotteryState → BatchLoader → Debits → TokenBuyRecord → RefundBasis
basis_of state load debits t =
    let delivery = settle_delivery state debits in
    let bought = buy_spend t load debits in
    record {
      allocated = t.adjusted_sol_amount;
      spent = bought.spent;
      delivery_leftover =
          leftover_share delivery.leftover (total_allocated state) t.adjusted_sol_amount;
      exact = bought.exact && delivery.exact;
    }

abbrev pub set_basis : Mint → RefundBasis → List (Mint × RefundBasis) → List (Mint × RefundBasis)
set_basis mint b [] = (mint, b) ∷ []
set_basis mint b ((m, c) ∷ ledger) =
    if m == mint then (m, b) ∷ ledger else (m, c) ∷ set_basis mint b ledger

pub ledger_from :
    LotteryState
    → BatchLoader
    → Debits
    → List TokenBuyRecord
    → List (Mint × RefundBasis)
    → List (Mint × RefundBasis)
ledger_from state load debits [] ledger = ledger
ledger_from state load debits (t ∷ ts) ledger =
    ledger_from state load debits ts (set_basis t.mint (basis_of state load debits t) ledger)

-- `buildRefundLedger`
unfoldable pub build_refund_ledger : LotteryState → BatchLoader → Debits → List (Mint × RefundBasis)
unfolding ledger_from
build_refund_ledger state load debits = ledger_from state load debits state.token_buys []
