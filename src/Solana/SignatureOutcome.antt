-- ===== src/Solana/SignatureOutcome.antt =====
-- offchain/solana/signatureOutcome.ts: what became of a signature. The two answers of the node are
-- arguments, `none` where the call throws.
use pumpling.Base.{
  Bool, Option, arith, false, if◌then◌else◌, leb, none, refl, some, true, ℕ, ◌+◌, ◌<◌, ◌≡◌, ◌⊎◌,
}

pub data SignatureOutcome : Type 0 where
  landed absent failed unknown : SignatureOutcome

pub data Confirmation : Type 0 where
  unset processed confirmed finalized : Confirmation

-- A status that the node returned.
pub record StatusValue : Type 0 where
  pub has_err : Bool
  pub confirmation : Confirmation

abbrev pub expiry_margin_blocks : ℕ
expiry_margin_blocks = 32

abbrev is_final : Confirmation → Bool
is_final confirmed = true
is_final finalized = true
is_final _ = false

-- The status is `null`: gone only if the finalized height is past the limit and the margin.
abbrev outcome_missing : Option ℕ → Option ℕ → SignatureOutcome
outcome_missing (some limit) (some height) =
    if leb height (limit + expiry_margin_blocks) then unknown else absent
outcome_missing _ _ = absent

abbrev outcome_of : Option ℕ → Option ℕ → Option (Option StatusValue) → SignatureOutcome
outcome_of limit height none = unknown
outcome_of limit height (some none) = outcome_missing limit height
outcome_of limit height (some (some v)) =
    if v.has_err
    then SignatureOutcome.failed
    else if is_final v.confirmation
    then landed
    else unknown

-- `signatureOutcome`: the block height is read only where the limit is known.
unfoldable pub signature_outcome :
    Option ℕ → Option ℕ → Option (Option StatusValue) → SignatureOutcome
signature_outcome none height status = outcome_of none none status
signature_outcome (some limit) none status = unknown
signature_outcome (some limit) (some height) status = outcome_of (some limit) (some height) status

-- Where the limit of the blockhash is known, a signature is `absent` only if the node does not
-- have it and the finalized height is past the limit by more than the margin.
pub signature_outcome-absent :
    (limit : ℕ) (height : Option ℕ) (status : Option (Option StatusValue))
    → signature_outcome (some limit) height status ≡ absent
    → (h : ℕ) × (height ≡ some h) × (limit + expiry_margin_blocks < h) × (status ≡ some none)
unfolding signature_outcome
signature_outcome-absent limit none status e = cc
signature_outcome-absent limit (some h) none e = cc
signature_outcome-absent limit (some h) (some none) e = (h, refl, ground arith, refl)
signature_outcome-absent limit (some h) (some (some v)) e = ground arith

-- A signature is `landed` only where the node has it, without an error, and confirmed or finalized.
pub signature_outcome-landed :
    (limit height : Option ℕ) (status : Option (Option StatusValue))
    → signature_outcome limit height status ≡ landed
    → (v : StatusValue) × (status ≡ some (some v))
      × (v.has_err ≡ false)
      × ((v.confirmation ≡ confirmed) ⊎ (v.confirmation ≡ finalized))
unfolding signature_outcome
signature_outcome-landed limit height none e = ground arith
signature_outcome-landed limit height (some none) e = ground arith
signature_outcome-landed limit height (some (some v)) e = (v, refl, ground arith, ground arith)
