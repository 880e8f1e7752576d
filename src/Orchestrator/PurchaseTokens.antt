-- ===== src/Orchestrator/PurchaseTokens.antt =====
-- offchain/orchestrator/purchaseTokens.ts: how many tokens a coin's purchases brought. The batch
-- files are read by the argument `load_batch`, which is `none` for a file that is not there.
pub mod Refresh
pub mod Grounded
use pumpling.Base.{
  Bool, List, Option, [], dedup, false, find?, has, if◌then◌else◌, map, none, some, ℕ, ◌++◌, ◌+◌,
  ◌==◌, ◌∷◌,
}
use pumpling.Orchestrator.State.{is_mint, lookup}
use pumpling.Orchestrator.Types.{LotteryState, Mint, Signature, StateFile, Time, TokenBuyRecord}
use pumpling.Scheduler.State.{purchase_has}
use pumpling.Scheduler.Types.{BatchState, PurchaseRecord, PurchaseStatus, SentAttemptRecord}

abbrev pub BatchLoader : Type 0
BatchLoader = StateFile → Option BatchState

-- The list of files where it has any, or else the last file.
abbrev listed_or_last : Option (List StateFile) → Option StateFile → List StateFile
listed_or_last (some (f ∷ fs)) last = f ∷ fs
listed_or_last _ none = []
listed_or_last _ (some f) = f ∷ []

abbrev pub files_of : TokenBuyRecord → List StateFile
files_of t = listed_or_last t.batch_state_files t.batch_state_file

abbrev pub purchases_of : Option BatchState → List PurchaseRecord
purchases_of none = []
purchases_of (some b) = b.purchases

abbrev pub optional {ℓ} : {A : Type ℓ} → Option A → List A
optional none = []
optional (some a) = a ∷ []

-- The signature of a completed purchase.
abbrev completed_signature : PurchaseRecord → List Signature
completed_signature p = if purchase_has PurchaseStatus.completed p then optional p.signature else []

abbrev pub all_purchases : BatchLoader → List StateFile → List PurchaseRecord
all_purchases load [] = []
all_purchases load (f ∷ fs) = purchases_of (load f) ++ all_purchases load fs

abbrev pub flat_map {ℓ κ} : {A : Type ℓ} {B : Type κ} → (A → List B) → List A → List B
flat_map f [] = []
flat_map f (x ∷ xs) = f x ++ flat_map f xs

-- `completedPurchaseSignatures`
unfoldable pub completed_purchase_signatures : TokenBuyRecord → BatchLoader → List Signature
completed_purchase_signatures t load =
    dedup (flat_map completed_signature (all_purchases load (files_of t)))

pub record PendingAttempt : Type 0 where
  pub signature : Signature
  pub updated_at : Time

-- `attempts.set(...)`: a later time replaces the earlier one in its place.
unfoldable pub set_attempt : PendingAttempt → List PendingAttempt → List PendingAttempt
set_attempt a [] = a ∷ []
set_attempt a (b ∷ bs) = if b.signature == a.signature then a ∷ bs else b ∷ set_attempt a bs

abbrev is_own : Signature → Option Signature → Bool
is_own s none = false
is_own s (some t) = s == t

abbrev pending_attempt : PurchaseRecord → List PendingAttempt
pending_attempt p = elim (p.pending_signature) [
  | none ↦ []
  | some s ↦
      if is_own s p.signature then [] else record { signature = s; updated_at = p.updated_at } ∷ []
]

abbrev sent_attempt : PurchaseRecord → SentAttemptRecord → List PendingAttempt
sent_attempt p a =
    if is_own a.signature p.signature
    then []
    else record { signature = a.signature; updated_at = a.at } ∷ []

abbrev attempts_of : PurchaseRecord → List PendingAttempt
attempts_of p = pending_attempt p ++ flat_map (sent_attempt p) p.sent_attempts

abbrev set_attempts : List PendingAttempt → List PendingAttempt → List PendingAttempt
set_attempts [] acc = acc
set_attempts (a ∷ as') acc = set_attempts as' (set_attempt a acc)

-- `pendingPurchaseAttempts`
unfoldable pub pending_purchase_attempts : TokenBuyRecord → BatchLoader → List PendingAttempt
unfolding set_attempt
pending_purchase_attempts t load =
    set_attempts (flat_map attempts_of (all_purchases load (files_of t))) []

-- `pendingPurchaseSignatures`
unfoldable pub pending_purchase_signatures : TokenBuyRecord → BatchLoader → List Signature
unfolding pending_purchase_attempts
pending_purchase_signatures t load = map (λ a. a.signature) (pending_purchase_attempts t load)

pub record Bought : Type 0 where
  pub known : ℕ
  pub unread : List Signature
  pub unread_pending : List Signature

abbrev nothing_bought : Bought
nothing_bought = record { known = 0; unread = []; unread_pending = [] }

-- The two loops of `tokensBought`: over the completed purchases, then over the earlier attempts.
unfoldable pub add_completed : List (Signature × ℕ) → List Signature → Bought → Bought
add_completed recorded [] b = b
add_completed recorded (s ∷ ss) b = add_completed recorded ss (elim (lookup s recorded) [
  | none ↦ record b { unread = b.unread ++ (s ∷ []) }
  | some raw ↦ record b { known = b.known + raw }
])

unfoldable pub add_pending :
    List (Signature × ℕ) → List Signature → List Signature → Bought → Bought
add_pending recorded seen [] b = b
add_pending recorded seen (s ∷ ss) b = add_pending recorded seen ss (
    if has s seen then b else elim (lookup s recorded) [
      | none ↦ record b { unread_pending = b.unread_pending ++ (s ∷ []) }
      | some raw ↦ record b { known = b.known + raw }
    ])

-- `tokensBought`
unfoldable pub tokens_bought : LotteryState → Mint → BatchLoader → Bought
unfolding add_completed add_pending completed_purchase_signatures pending_purchase_signatures
tokens_bought state mint load = elim (find? (is_mint mint) state.token_buys) [
  | none ↦ nothing_bought
  | some t ↦
      let completed = completed_purchase_signatures t load in
      add_pending state.purchase_tokens completed (pending_purchase_signatures t load)
        (add_completed state.purchase_tokens completed nothing_bought)
]
