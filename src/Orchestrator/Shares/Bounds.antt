-- ===== src/Orchestrator/Shares/Bounds.antt =====
-- What holds of every list that `shares_of` returns (offchain/orchestrator/shares.ts).
use pumpling.Base.{
  All, List, Option, [], arith, false, if_elim, ℕ, ◌*◌, ◌<◌, ◌==◌, ◌||◌, ◌∷◌, ◌≡◌, ◌≤◌,
}
use pumpling.Base.Text.{Text}
use pumpling.Orchestrator.Shares.{
  Share, add_share, burn_weight_of, collect_recipients, collect_sends, from_stake, full_bps,
  has_wallet, recipients_of, shares_from, shares_of, token_of,
}
use pumpling.Orchestrator.Types.{JsNumber, LotteryState, Mint, RecipientStake, SendRecord, Wallet}

-- The burn weight is never more than all of the commit.
pub burn_weight_of-le :
    (stake : ℕ) (text : Option Text) (bps : Option JsNumber)
    → burn_weight_of stake text bps ≤ stake * full_bps
unfolding burn_weight_of
burn_weight_of-le stake text bps = ground arith

-- A share that stands for a commit, and burns at most all of it.
abbrev pub IsFair : Share → Type 0
IsFair s = (0 < s.stake) × (s.burn ≤ s.stake * full_bps)

-- No wallet stands twice.
abbrev pub Distinct : List Share → Type 0
Distinct [] = Unit
Distinct (s ∷ ss) = (has_wallet s.wallet ss ≡ false) × Distinct ss

abbrev pub IsValid : List Share → Type 0
IsValid ss = All IsFair ss × Distinct ss

has_wallet-add_share :
    (w : Wallet) (s : Share) (ss : List Share)
    → has_wallet w (add_share s ss) ≡ ((s.wallet == w) || has_wallet w ss)
unfolding add_share
has_wallet-add_share w s [] = ground arith
has_wallet-add_share w s (t ∷ ts) = ground (arith, has_wallet-add_share w s ts)

add_share-IsValid : (s : Share) (ss : List Share) → IsFair s → IsValid ss → IsValid (add_share s ss)
unfolding add_share
add_share-IsValid s [] f v = ground arith
add_share-IsValid s (t ∷ ts) f v =
    grind (arith, add_share-IsValid s ts f (v.0.1, v.1.1), has_wallet-add_share t.wallet s ts)

from_stake-IsFair :
    (r : RecipientStake) → ((from_stake r).stake == 0) ≡ false → IsFair (from_stake r)
unfolding from_stake
from_stake-IsFair r h = (ground arith, burn_weight_of-le _ r.burn_weight r.burn_bps)

collect_recipients-IsValid :
    (rs : List RecipientStake) (acc : List Share)
    → IsValid acc
    → IsValid (collect_recipients rs acc)
unfolding collect_recipients
collect_recipients-IsValid [] acc v = v
collect_recipients-IsValid (r ∷ rs) acc v = collect_recipients-IsValid rs _ (
    if_elim IsValid ((from_stake r).stake == 0) _ _ (λ _. v)
      (λ h. add_share-IsValid (from_stake r) acc (from_stake-IsFair r h) v))

collect_sends-IsValid :
    (mint : Mint) (ss : List SendRecord) (acc : List Share)
    → IsValid acc
    → IsValid (collect_sends mint ss acc)
unfolding collect_sends
collect_sends-IsValid mint [] acc v = v
collect_sends-IsValid mint (s ∷ ss) acc v = collect_sends-IsValid mint ss _ (
    if_elim IsValid (s.mint == mint) _ _
      (λ _.
        if_elim IsValid (has_wallet s.recipient acc) _ _ (λ _. v)
          (λ _.
            if_elim IsValid (s.recipient_bet_sol == 0) _ _ (λ _. v)
              (λ h. add_share-IsValid _ acc (ground arith, omega arith) v)))
      (λ _. v))

shares_from-IsValid :
    (rs : List RecipientStake) (old : List Share) → IsValid old → IsValid (shares_from rs old)
shares_from-IsValid [] old v = v
shares_from-IsValid (r ∷ rs) old v = collect_recipients-IsValid (r ∷ rs) [] (tt, tt)

-- In the shares of a coin no wallet stands twice, every stake is positive, and no burn weight is
-- more than all of its stake.
pub shares_of-IsValid : (state : LotteryState) (mint : Mint) → IsValid (shares_of state mint)
unfolding shares_of
shares_of-IsValid state mint =
    shares_from-IsValid (recipients_of (token_of state mint)) _
      (collect_sends-IsValid mint state.sends [] (tt, tt))
