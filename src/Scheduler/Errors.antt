-- ===== src/Scheduler/Errors.antt =====
-- offchain/scheduler/errors.ts: whether an error of a purchase or a delivery is worth a retry; with
-- the error codes of offchain/pumpfun/errors.ts. An error is its message and the venue that it was
-- labelled with, if any.
use pumpling.Base.{
  Bool, Bool-cases, List, Option, [], arith, false, has, if◌then◌else◌, inl, inr, leb, ltb, none,
  not, refl, some, true, ℕ, ◌&&◌, ◌*◌, ◌++◌, ◌+◌, ◌-◌, ◌==◌, ◌||◌, ◌∷◌, ◌≡◌,
}
use pumpling.Base.Text.{Text, codes, includes, is_digit, strip_prefix}
use pumpling.Orchestrator.State.{or_zero}
use pumpling.Scheduler.Types.{BuyVenue, dex, pumpfun, pumpswap}

pub data ErrorClass : Type 0 where
  retryable non_retryable unclassified : ErrorClass

abbrev pub retryable_patterns : List Text
retryable_patterns =
    codes "ECONNREFUSED"
    ∷ codes "ECONNRESET"
    ∷ codes "ETIMEDOUT"
    ∷ codes "ENOTFOUND"
    ∷ codes "socket hang up"
    ∷ codes "fetch failed"
    ∷ codes "429"
    ∷ codes "Too Many Requests"
    ∷ codes "503"
    ∷ codes "Service Unavailable"
    ∷ codes "502"
    ∷ codes "Bad Gateway"
    ∷ codes "blockhash not found"
    ∷ codes "Blockhash not found"
    ∷ codes "BlockhashNotFound"
    ∷ codes "block height exceeded"
    ∷ codes "TransactionExpiredBlockheightExceededError"
    ∷ codes "TransactionExpiredTimeoutError"
    ∷ codes "Request timeout"
    ∷ codes "timeout"
    ∷ codes "Timeout"
    ∷ codes "Slippage"
    ∷ codes "slippage"
    ∷ codes "exceeds desired slippage"
    ∷ codes "ExceededSlippageToleranceError"
    ∷ codes "swap build failed: 500"
    ∷ codes "swap build failed: 503"
    ∷ codes "quote failed: 500"
    ∷ codes "quote failed: 503"
    ∷ codes "quote failed: 429"
    ∷ []

abbrev pub non_retryable_patterns : List Text
non_retryable_patterns =
    codes "insufficient funds"
    ∷ codes "Insufficient funds"
    ∷ codes "InsufficientFundsError"
    ∷ codes "insufficient lamports"
    ∷ codes "insufficient funds for rent"
    ∷ codes "Mint account not found"
    ∷ codes "Account not found"
    ∷ codes "Invalid public key"
    ∷ codes "invalid public key"
    ∷ codes "No route found"
    ∷ codes "no liquidity"
    ∷ codes "quote failed: 400"
    ∷ codes "swap build failed: 400"
    ∷ codes "Pump Global account not found"
    ∷ codes "Pump Global account too small"
    ∷ codes "cannot be distributed"
    ∷ []

abbrev pub slippage_patterns : List Text
slippage_patterns =
    codes "Slippage"
    ∷ codes "slippage"
    ∷ codes "exceeds desired slippage"
    ∷ codes "ExceededSlippageToleranceError"
    ∷ codes "TooMuchSolRequired"
    ∷ []

-- `patterns.some((p) => message.includes(p))`
abbrev pub matches_any : List Text → Text → Bool
matches_any [] message = false
matches_any (p ∷ ps) message = includes p message || matches_any ps message

-- The first pattern that the message has.
abbrev pub first_match : List Text → Text → Option Text
first_match [] message = none
first_match (p ∷ ps) message = if includes p message then some p else first_match ps message

abbrev is_space : ℕ → Bool
is_space c = c == b' ' || (leb 9 c && leb c 13)

abbrev skip_spaces : Text → Text
skip_spaces [] = []
skip_spaces (c ∷ s) = if is_space c then skip_spaces s else c ∷ s

-- A digit of base 10 or 16.
abbrev digit_value : ℕ → Option ℕ
digit_value c =
    if is_digit c
    then some (c - b'0')
    else if leb b'a' c && leb c b'f'
    then some (c - b'a' + 10)
    else if leb b'A' c && leb c b'F'
    then some (c - b'A' + 10)
    else none

abbrev is_below : ℕ → Option ℕ → Bool
is_below base none = false
is_below base (some d) = ltb d base

-- The longest run of digits, as a number, behind what was read.
abbrev read_from : ℕ → ℕ → Text → ℕ
read_from base acc [] = acc
read_from base acc (c ∷ s) =
    let rest = read_from base (acc * base + or_zero (digit_value c)) s in
    if is_below base (digit_value c) then rest else acc

abbrev read_number : ℕ → Text → Option ℕ
read_number base [] = none
read_number base (c ∷ s) =
    if is_below base (digit_value c) then some (read_from base 0 (c ∷ s)) else none

abbrev after {ℓ} : {A : Type ℓ} → Option A → (A → Option ℕ) → Option ℕ
after none f = none
after (some s) f = f s

-- `/"Custom"\s*:\s*(\d+)/` at the head of a text
abbrev json_code : Text → Option ℕ
json_code s =
    after (strip_prefix (34 ∷ codes "Custom" ++ (34 ∷ [])) s)
      (λ t. after (strip_prefix (codes ":") (skip_spaces t)) (λ u. read_number 10 (skip_spaces u)))

-- `/custom program error:\s*0x([0-9a-fA-F]+)/` at the head of a text
abbrev hex_code : Text → Option ℕ
hex_code s =
    after (strip_prefix (codes "custom program error:") s)
      (λ t. after (strip_prefix (codes "0x") (skip_spaces t)) (read_number 16))

-- The first place at which a text matches.
pub first_code : (Text → Option ℕ) → Text → Option ℕ
first_code f [] = none
first_code f (c ∷ s) = elim (f (c ∷ s)) [ some n ↦ some n | none ↦ first_code f s ]

-- `extractCustomErrorCode`
unfoldable pub extract_custom_error_code : Text → Option ℕ
unfolding first_code
extract_custom_error_code message = elim (first_code json_code message) [
  | some n ↦ some n
  | none ↦ first_code hex_code message
]

-- `VENUE_SLIPPAGE_CODES`, with `PUMP_SLIPPAGE_CODES`
abbrev pub venue_slippage_codes : BuyVenue → List ℕ
venue_slippage_codes pumpfun = 6002 ∷ 6003 ∷ 6042 ∷ []
venue_slippage_codes dex = 6001 ∷ []
venue_slippage_codes pumpswap = 6004 ∷ 6040 ∷ []

abbrev code_is_slippage : Option ℕ → Option BuyVenue → Bool
code_is_slippage (some code) (some venue) = has code (venue_slippage_codes venue)
code_is_slippage _ _ = false

-- `isSlippageError`
unfoldable pub is_slippage_error : Text → Option BuyVenue → Bool
unfolding extract_custom_error_code
is_slippage_error message venue =
    matches_any slippage_patterns message
    || code_is_slippage (extract_custom_error_code message) venue

-- What `classifyError` answers, from the first pattern of each kind that the message has. The
-- pattern is `none` where the class was not decided by a pattern.
abbrev pub class_of : Option Text → Option Text → Bool → ErrorClass × Option Text
class_of (some p) retry slipped = (non_retryable, some p)
class_of none (some p) slipped = (retryable, some p)
class_of none none true = (retryable, some (codes "slippage error code"))
class_of none none false = (unclassified, none)

-- `classifyError`
unfoldable pub classify_error : Text → Option BuyVenue → ErrorClass × Option Text
unfolding is_slippage_error
classify_error message venue =
    class_of (first_match non_retryable_patterns message) (first_match retryable_patterns message)
      (is_slippage_error message venue)

-- `isRetryableError`
abbrev pub is_worth_retry : ErrorClass → Bool
is_worth_retry non_retryable = false
is_worth_retry retryable = true
is_worth_retry unclassified = true

unfoldable pub is_retryable_error : Text → Option BuyVenue → Bool
unfolding classify_error
is_retryable_error message venue = is_worth_retry (classify_error message venue).0

first_match-none :
    (ps : List Text) (message : Text)
    → matches_any ps message ≡ false
    → first_match ps message ≡ none
first_match-none [] message h = refl
first_match-none (p ∷ ps) message h = ground (arith, first_match-none ps message)

first_match-some :
    (ps : List Text) (message : Text)
    → matches_any ps message ≡ true
    → (p : Text) × (first_match ps message ≡ some p)
first_match-some [] message h = cc
first_match-some (p ∷ ps) message h = elim (Bool-cases (includes p message)) [
  | inl here ↦ (p, rw here)
  | inr there ↦ rw there (first_match-some ps message (ground (arith, h)))
]

class_of-unmatched :
    (retry : Option Text) (slipped : Bool) → is_worth_retry (class_of none retry slipped).0 ≡ true
class_of-unmatched (some p) slipped = refl
class_of-unmatched none true = refl
class_of-unmatched none false = refl

class_of-matched :
    (ps : List Text) (message : Text) (retry : Option Text) (slipped : Bool)
    → is_worth_retry (class_of (first_match ps message) retry slipped).0
      ≡ not (matches_any ps message)
class_of-matched ps message retry slipped = elim (Bool-cases (matches_any ps message)) [
  | inl e ↦ let (p, f) = first_match-some ps message e in rw (f, e) refl
  | inr e ↦ rw (first_match-none ps message e, e) (class_of-unmatched retry slipped)
]

-- An error is not worth a retry exactly if its message has one of the patterns that say so: no
-- pattern for a retry, no slippage code and no venue changes that.
pub is_retryable_error_lem :
    (message : Text) (venue : Option BuyVenue)
    → is_retryable_error message venue ≡ not (matches_any non_retryable_patterns message)
unfolding is_retryable_error
is_retryable_error_lem message venue =
    class_of-matched non_retryable_patterns message (first_match retryable_patterns message)
      (unfold is_slippage_error in is_slippage_error message venue)
