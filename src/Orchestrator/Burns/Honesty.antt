-- ===== src/Orchestrator/Burns/Honesty.antt =====
-- What burning relies on: the answers of one call of `burnDueFor` agree with the chain.
-- `fate s` says whether the transaction of signature `s` burns, now or at any later time.
-- The verdicts of `signatureOutcome` are true, a transaction that the program refuses burns
-- nothing, and an error that names a signature names that of the transaction that was sent.
use pumpling.Base.{
  Bool, List, Option, false, if◌then◌else◌, none, some, sum_map, true, ℕ, ◌&&◌, ◌+◌, ◌==◌, ◌≡◌, ◌≢◌,
  ◌≤◌, ◌⊎◌,
}
use pumpling.Base.Text.{Text}
use pumpling.Orchestrator.Burns.{BurnEnv, SentBurn, SignedBurn, burned_so_far, is_open, refused}
use pumpling.Orchestrator.Burns.Ids.{Numbered}
use pumpling.Orchestrator.ProgramErrors.{liftable_errors, match_error, structural_errors}
use pumpling.Orchestrator.Types.{BurnRecord, LotteryState, Mint, Signature}
use pumpling.Solana.SignatureOutcome.{SignatureOutcome, absent, landed}

pub record IsHonest (fate : Signature → Bool) (env : BurnEnv) : Type 0 where
  pub landed_burns : (s : Signature) (h : Option ℕ) → env.outcome s h ≡ landed → fate s ≡ true
  pub absent_never : (s : Signature) (h : Option ℕ) → env.outcome s h ≡ absent → fate s ≡ false
  pub failed_never :
      (s : Signature) (h : Option ℕ) → env.outcome s h ≡ SignatureOutcome.failed → fate s ≡ false
  pub refused_never :
      (b : SignedBurn) (message : Text) (named : Option Signature)
      → env.sign_burn ≡ some b
      → b.send ≡ refused message named
      → (match_error message structural_errors ≢ none)
        ⊎ (match_error message liftable_errors ≢ none)
      → fate b.signature ≡ false
  pub named_same :
      (b : SignedBurn) (message : Text) (s : Signature)
      → env.sign_burn ≡ some b
      → b.send ≡ refused message (some s)
      → s ≡ b.signature

abbrev fate_of : (Signature → Bool) → Option Signature → Bool
fate_of fate none = false
fate_of fate (some s) = fate s

-- What an open burn of a coin destroys, if its signature burns.
abbrev pub live : (Signature → Bool) → Mint → BurnRecord → ℕ
live fate m b = if is_open m b && fate_of fate b.pending_signature then b.raw_amount else 0

-- What the transactions that were sent for a coin destroy.
abbrev pub spent : (Signature → Bool) → Mint → List SentBurn → ℕ
spent fate m = sum_map (λ s. if (s.mint == m) && fate s.signature then s.raw else 0)

-- Every burn is accounted for: what the transactions sent for a coin destroy is counted as burned
-- or stands in a record that is still open; and the ids are serial numbers.
pub record IsSound (fate : Signature → Bool) (state : LotteryState) (log : List SentBurn)
    : Type 0 where
  pub accounted :
      (m : Mint) → spent fate m log ≤ burned_so_far m state + sum_map (live fate m) state.burns
  pub numbered : Numbered 0 state.burns
