-- ===== src/Orchestrator/RefundLedger/Charges.antt =====
-- How `settleDelivery` (offchain/orchestrator/refundLedger.ts) charges a round for its deliveries
-- and burns: each transaction once, however many records share it.
use pumpling.Base.{
  ==_iff, Bool, Bool-cases, List, Once, Option, [], any, ap, arith, dedup, dedup-Once, dedup_from,
  false, filter, has, has-append, has-dedup, if◌then◌else◌, inl, inr, length, map, max, none, not,
  refl, some, true, ◌&&◌, ◌*◌, ◌++◌, ◌+◌, ◌==◌, ◌||◌, ◌∙◌, ◌∷◌, ◌≡◌,
}
use pumpling.Orchestrator.PurchaseTokens.{BatchLoader, flat_map}
use pumpling.Orchestrator.RefundLedger.{
  Charge, Debit, Debits, burn_signatures, charge_all, charge_one, charge_round, charge_with,
  collect_round_signatures, had_no_ata, is_known, pay, plus, rent_known, rent_owed, send_signatures,
  settle_delivery, token_signatures,
}
use pumpling.Orchestrator.RefundLedger.OnRecord.{
  has-delivery, has-token_signatures, on_burn, on_send, on_token, or_cong,
}
use pumpling.Orchestrator.RefundLedger.Totals.{Debit-ext, plus_assoc, total}
use pumpling.Orchestrator.Types.{LotteryState, SendRecord, Signature, Wallet}

-- What a signature costs: what was read, or the ceiling.
abbrev pub cost_of : Option Debit → Debit
cost_of (some d) = d
cost_of none = pay 10000

abbrev pub cost : Debits → Signature → Debit
cost debits s = cost_of (debits s)

charge_with_new :
    (s : Signature) (c : Charge) (o : Option Debit)
    → ((charge_with s c o).spent ≡ plus c.spent (cost_of o))
      × ((charge_with s c o).seen ≡ s ∷ c.seen)
charge_with_new s c none = (refl, refl)
charge_with_new s c (some d) = (refl, refl)

charge_all-spent_step :
    (debits : Debits) (s : Signature) (ss : List Signature) (c : Charge) (b : Bool)
    → ((k : Charge)
        → (charge_all debits ss k).spent
          ≡ plus k.spent (total (cost debits) (dedup_from k.seen ss)))
    → (charge_all debits ss (if b then c else charge_one debits s c)).spent
      ≡ plus c.spent
          (total (cost debits) (if b then dedup_from c.seen ss else s ∷ dedup_from (s ∷ c.seen) ss))
charge_all-spent_step debits s ss c true rest = rest c
charge_all-spent_step debits s ss c false rest =
    let (paid_now, noted) = charge_with_new s c (debits s) in
    let after = λ (old : List Signature). total (cost debits) (dedup_from old ss) in
    rest (charge_one debits s c)
    ∙ (ap (λ (d : Debit). plus d (after (charge_one debits s c).seen)) paid_now
        ∙ (ap (λ (old : List Signature). plus (plus c.spent (cost debits s)) (after old)) noted
            ∙ plus_assoc c.spent (cost debits s) (after (s ∷ c.seen))))

-- The charges of a list after what was seen: those of its new signatures, each once.
charge_all-spent :
    (debits : Debits) (ss : List Signature) (c : Charge)
    → (charge_all debits ss c).spent ≡ plus c.spent (total (cost debits) (dedup_from c.seen ss))
unfolding charge_all
charge_all-spent debits [] c = Debit-ext _ _ (omega arith) (omega arith)
charge_all-spent debits (s ∷ ss) c =
    charge_all-spent_step debits s ss c (has s c.seen) (charge_all-spent debits ss)

charge_all-append :
    (debits : Debits) (ss ts : List Signature) (c : Charge)
    → charge_all debits ts (charge_all debits ss c) ≡ charge_all debits (ss ++ ts) c
unfolding charge_all
charge_all-append debits [] ts c = refl
charge_all-append debits (s ∷ ss) ts c =
    charge_all-append debits ss ts (if has s c.seen then c else charge_one debits s c)

abbrev delivery_signatures : LotteryState → List Signature
delivery_signatures state =
    flat_map send_signatures state.sends ++ flat_map burn_signatures state.burns

-- The chain was read for this signature, if there is one.
abbrev pub read_for : Debits → Option Signature → Bool
read_for debits none = false
read_for debits (some s) = elim (debits s) [ none ↦ false | some _ ↦ true ]

-- A wallet that had no account when one of its deliveries was planned, and to which no delivery
-- that succeeded or is pending was read from the chain.
abbrev pub owes_rent : Debits → List SendRecord → Wallet → Bool
owes_rent debits sends w =
    any (λ d. d.recipient == w && (elim d.had_ata_at_start [ none ↦ false | some had ↦ not had ]))
      sends
    && not (
        any
          (λ d.
            d.recipient == w
            && (read_for debits d.signature || read_for debits d.pending_signature))
          sends)

-- What a round is charged for: signatures and wallets, each once.
pub record IsCharged (state : LotteryState) (debits : Debits) (spent : Debit) : Type 0 where
  pub signatures : List Signature
  pub each_once : Once signatures
  pub on_record :
      (s : Signature)
      → has s signatures ≡ (any (on_send s) state.sends || any (on_burn s) state.burns)
  pub wallets : List Wallet
  pub wallet_once : Once wallets
  pub rented : (w : Wallet) → has w wallets ≡ owes_rent debits state.sends w
  pub in_all : spent ≡ plus (total (cost debits) signatures) (pay (length wallets * 2040000))

has-recipients :
    (w : Wallet) (p : SendRecord → Bool) (ds : List SendRecord)
    → has w (map (λ d. d.recipient) (filter p ds)) ≡ any (λ d. d.recipient == w && p d) ds
has-recipients w p [] = refl
has-recipients w p (d ∷ ds) = ground (arith, has-recipients w p ds)

-- A condition on the recipient alone may be asked about the wallet.
any-recipient :
    (w : Wallet) (p : SendRecord → Bool) (q : Wallet → Bool) (ds : List SendRecord)
    → any (λ d. d.recipient == w && (p d && q d.recipient)) ds
      ≡ (any (λ d. d.recipient == w && p d) ds && q w)
any-recipient w p q [] = refl
any-recipient w p q (d ∷ ds) = elim (Bool-cases (d.recipient == w)) [
  | inl e ↦
      let same = ap q ((==_iff d.recipient w).0 e) in
      rw (e, same) (distribute _ _ (p d) (q w) (any-recipient w p q ds))
  | inr e ↦ rw e (any-recipient w p q ds)
]
  where
    distribute : (a b x y : Bool) → a ≡ (b && y) → ((x && y) || a) ≡ ((x || b) && y)
    distribute a b true true h = refl
    distribute a b true false h = ground (arith, h)
    distribute a b false y h = h

has-rent_owed :
    (debits : Debits) (sends : List SendRecord) (w : Wallet)
    → has w (rent_owed debits sends) ≡ owes_rent debits sends w
has-rent_owed debits sends w =
    has-dedup w _
    ∙ (has-recipients w _ sends
        ∙ (any-recipient w _ (λ v. not (has v (rent_known debits sends))) sends
            ∙ ap (λ (b : Bool). any (λ d. d.recipient == w && had_no_ata d) sends && not b)
                (has-recipients w
                  (λ d. is_known debits d.signature || is_known debits d.pending_signature) sends)))

charged-signatures :
    (state : LotteryState) (debits : Debits)
    → (charge_round debits state).spent ≡ total (cost debits) (dedup (delivery_signatures state))
charged-signatures state debits =
    let start : Charge = record { seen = []; spent = pay 0; exact = true } in
    ap (λ (c : Charge). c.spent)
      (charge_all-append debits (flat_map send_signatures state.sends)
        (flat_map burn_signatures state.burns) start)
    ∙ (charge_all-spent debits (delivery_signatures state) start
        ∙ Debit-ext _ _ (omega arith) (omega arith))

-- What delivering cost is what was read of each transaction that
-- stands on a delivery (as the one it completed with, as pending or as failed) or on a burn, or
-- 10000 lamports where it could not be read, once for all the records that share it; and 2040000
-- lamports for each wallet that had no account, once, unless the transaction of a delivery to it
-- was read. That, what is held back, and what is left to give back make up the reserve, if the
-- reserve was enough, and if it was not then nothing is left.
pub settle_delivery_lem :
    (state : LotteryState) (debits : Debits)
    → IsCharged state debits (settle_delivery state debits).spent
      × ((settle_delivery state debits).spent.paid
            + (settle_delivery state debits).held
            + (settle_delivery state debits).leftover
          ≡ max
              (state.send_reserve + (settle_delivery state debits).spent.got)
              ((settle_delivery state debits).spent.paid + (settle_delivery state debits).held))
unfolding settle_delivery
settle_delivery_lem state debits = (
  record {
    signatures = dedup (delivery_signatures state);
    each_once = dedup-Once (delivery_signatures state);
    on_record = λ s. has-dedup s (delivery_signatures state) ∙ has-delivery s state;
    wallets = rent_owed debits state.sends;
    wallet_once = dedup-Once _;
    rented = has-rent_owed debits state.sends;
    in_all =
        ap (λ (d : Debit). plus d (pay (length (rent_owed debits state.sends) * 2040000)))
          (charged-signatures state debits);
  },
  omega arith,
)

-- The chain is asked about a signature exactly where it stands on a purchase in a batch file of a
-- coin that can be read (as the one it completed with, as pending or as that of an attempt), on a
-- delivery (as the one it completed with, as pending or as failed) or on a burn.
pub has-collect_round_signatures :
    (state : LotteryState) (load : BatchLoader) (s : Signature)
    → has s (collect_round_signatures state load) ≡ (
        any (on_token s load) state.token_buys
        || (any (on_send s) state.sends || any (on_burn s) state.burns))
unfolding collect_round_signatures
has-collect_round_signatures state load s =
    has-dedup s _
    ∙ (has-append s (flat_map (token_signatures load) state.token_buys) (delivery_signatures state)
        ∙ or_cong (has-token_signatures s load state.token_buys) (has-delivery s state))
