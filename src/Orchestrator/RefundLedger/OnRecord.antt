-- ===== src/Orchestrator/RefundLedger/OnRecord.antt =====
-- Which signatures stand on the records of a round (offchain/orchestrator/types.ts,
-- offchain/scheduler/types.ts), as yes or no questions about the records.
use pumpling.Base.{
  Bool, List, Option, [], any, any-append, ap, arith, false, has, has-append, map, none, refl, some,
  sym, true, ℕ, ◌++◌, ◌==◌, ◌||◌, ◌∙◌, ◌∷◌, ◌≡◌,
}
use pumpling.Orchestrator.PurchaseTokens.{
  BatchLoader, all_purchases, files_of, flat_map, optional, purchases_of,
}
use pumpling.Orchestrator.RefundLedger.{
  burn_signatures, loaded, purchase_signatures, send_signatures, token_signatures,
}
use pumpling.Orchestrator.Types.{
  BurnRecord, LotteryState, SendRecord, Signature, StateFile, TokenBuyRecord,
}
use pumpling.Scheduler.Types.{BatchState, PurchaseRecord, SentAttemptRecord}

-- The field has this signature.
abbrev pub names : Signature → Option Signature → Bool
names s none = false
names s (some t) = t == s

-- The purchase completed with it, has it pending, or sent it in an attempt.
abbrev pub on_purchase : Signature → PurchaseRecord → Bool
on_purchase s p =
    names s p.signature
    || (names s p.pending_signature || any (λ a. a.signature == s) p.sent_attempts)

-- The delivery completed with it, has it pending, or keeps it as one that failed.
abbrev pub on_send : Signature → SendRecord → Bool
on_send s d =
    names s d.signature || (names s d.pending_signature || any (λ f. f == s) d.failed_signatures)

abbrev pub on_burn : Signature → BurnRecord → Bool
on_burn s b = names s b.signature || names s b.pending_signature

abbrev pub on_token : Signature → BatchLoader → TokenBuyRecord → Bool
on_token s load t = any (on_purchase s) (all_purchases load (files_of t))

has-any : (s : ℕ) (xs : List ℕ) → has s xs ≡ any (λ f. f == s) xs
has-any s [] = refl
has-any s (x ∷ xs) = ap (λ (b : Bool). (x == s) || b) (has-any s xs)

or_false : (b : Bool) → (b || false) ≡ b
or_false true = refl
or_false false = refl

pub or_cong : {a b c d : Bool} → a ≡ b → c ≡ d → (a || c) ≡ (b || d)
or_cong e f = cc (e, f)

pub has-optional : (s : Signature) (o : Option Signature) → has s (optional o) ≡ names s o
has-optional s none = refl
has-optional s (some t) = or_false (t == s)

pub has-flat_map {ℓ} :
    {A : Type ℓ} (s : ℕ) (f : A → List ℕ) (q : A → Bool)
    → ((x : A) → has s (f x) ≡ q x)
    → (xs : List A) → has s (flat_map f xs) ≡ any q xs
has-flat_map s f q h [] = refl
has-flat_map s f q h (x ∷ xs) =
    has-append s (f x) (flat_map f xs) ∙ or_cong (h x) (has-flat_map s f q h xs)

attempts_lem :
    (s : Signature) (as' : List SentAttemptRecord)
    → has s (map (λ a. a.signature) as') ≡ any (λ a. a.signature == s) as'
attempts_lem s [] = refl
attempts_lem s (a ∷ as') = ap (λ (b : Bool). (a.signature == s) || b) (attempts_lem s as')

-- The pending signature and those of the attempts.
pub has-attempts :
    (s : Signature) (p : PurchaseRecord)
    → has s (optional p.pending_signature ++ map (λ a. a.signature) p.sent_attempts)
      ≡ (names s p.pending_signature || any (λ a. a.signature == s) p.sent_attempts)
has-attempts s p =
    has-append s (optional p.pending_signature) _
    ∙ or_cong (has-optional s p.pending_signature) (attempts_lem s p.sent_attempts)

has-purchase_signatures :
    (s : Signature) (p : PurchaseRecord) → has s (purchase_signatures p) ≡ on_purchase s p
has-purchase_signatures s p =
    has-append s (optional p.signature) _ ∙ or_cong (has-optional s p.signature) (has-attempts s p)

has-send_signatures : (s : Signature) (d : SendRecord) → has s (send_signatures d) ≡ on_send s d
has-send_signatures s d =
    has-append s (optional d.signature) _
    ∙ or_cong (has-optional s d.signature) (
        has-append s (optional d.pending_signature) _
        ∙ or_cong (has-optional s d.pending_signature) (has-any s d.failed_signatures))

has-burn_signatures : (s : Signature) (b : BurnRecord) → has s (burn_signatures b) ≡ on_burn s b
has-burn_signatures s b =
    has-append s (optional b.signature) _
    ∙ or_cong (has-optional s b.signature) (has-optional s b.pending_signature)

purchases_lem :
    (s : Signature) (b : Option BatchState)
    → has s (flat_map (λ c. flat_map purchase_signatures c.purchases) (optional b))
      ≡ any (on_purchase s) (purchases_of b)
purchases_lem s none = refl
purchases_lem s (some b) =
    has-append s (flat_map purchase_signatures b.purchases) []
    ∙ (or_false _
        ∙ has-flat_map s purchase_signatures (on_purchase s) (has-purchase_signatures s)
            b.purchases)

flat_map-append {ℓ} :
    {A : Type ℓ} (s : ℕ) (f : A → List ℕ) (xs ys : List A)
    → has s (flat_map f (xs ++ ys)) ≡ (has s (flat_map f xs) || has s (flat_map f ys))
flat_map-append s f [] ys = refl
flat_map-append s f (x ∷ xs) ys =
    has-append s (f x) _
    ∙ (ap (λ (b : Bool). has s (f x) || b) (flat_map-append s f xs ys)
        ∙ ground (arith, has-append s (f x) (flat_map f xs)))

loaded_lem :
    (s : Signature) (load : BatchLoader) (files : List StateFile)
    → has s (flat_map (λ c. flat_map purchase_signatures c.purchases) (loaded load files))
      ≡ any (on_purchase s) (all_purchases load files)
loaded_lem s load [] = refl
loaded_lem s load (f ∷ fs) =
    flat_map-append s _ (optional (load f)) (loaded load fs)
    ∙ (or_cong (purchases_lem s (load f)) (loaded_lem s load fs)
        ∙ sym (any-append (on_purchase s) (purchases_of (load f)) (all_purchases load fs)))

-- The signatures of a coin are those of the purchases in its files.
pub has-token_signatures :
    (s : Signature) (load : BatchLoader) (ts : List TokenBuyRecord)
    → has s (flat_map (token_signatures load) ts) ≡ any (on_token s load) ts
has-token_signatures s load =
    has-flat_map s (token_signatures load) (on_token s load) (λ t. loaded_lem s load (files_of t))

-- Those of the deliveries and the burns.
pub has-delivery :
    (s : Signature) (state : LotteryState)
    → has s (flat_map send_signatures state.sends ++ flat_map burn_signatures state.burns)
      ≡ (any (on_send s) state.sends || any (on_burn s) state.burns)
has-delivery s state =
    has-append s (flat_map send_signatures state.sends) _
    ∙ or_cong (has-flat_map s send_signatures (on_send s) (has-send_signatures s) state.sends)
        (has-flat_map s burn_signatures (on_burn s) (has-burn_signatures s) state.burns)
