-- ===== src/Examples/Resuming.antt =====
-- A round that a crash left open, and the reading of its transactions.
use pumpling.Base.{
  ==_refl, Bool, List, [], arith, false, has, if◌then◌else◌, map, none, not, ok, refl, some,
  some_injective, subst, suc, sum_map, sym, true, ℕ, ◌%◌, ◌&&◌, ◌<◌, ◌==◌, ◌>>=◌, ◌∙◌, ◌∷◌, ◌≡◌,
}
use pumpling.Base.Integers.{pos, ◌⊖◌}
use pumpling.Examples.Data.{a_batch, a_buy, a_delivery, a_purchase, a_state}
use pumpling.Orchestrator.PurchaseTokens.{BatchLoader}
use pumpling.Orchestrator.Resume.{
  Asks, ResumedRun, is_unfinished, purchases_that_may_have_landed, resume_lottery,
}
use pumpling.Orchestrator.Resume.Again.{BuysOnlyRest, resume_lottery-BuysOnlyRest}
use pumpling.Orchestrator.Types.{BuyStatus, LotteryState, SendStatus, Signature}
use pumpling.Scheduler.Types.{BatchState, PurchaseStatus}
use pumpling.Solana.Debits.{
  KeeperEffect, AnswerRow, RawAnswer, RpcBatch, a_transaction, asked_twice, by_id, map_get,
  or_none_left, read_keeper_debits, read_keeper_effects, token_deltas_for,
}
use pumpling.Solana.Debits.Deltas.{amount_for, map_get-set, token_deltas_for_lem}
use pumpling.Solana.Debits.Honest.{AnswersHonestly, IsTruthful, read_keeper_effects-IsSound}
use pumpling.Solana.Debits.Reading.{
  AnswersAll, IsAnswered, effect_on_chain, read_keeper_effects_lem,
}
use pumpling.Solana.SignatureOutcome.{unknown}

-- Two purchases of half a SOL: the first bought, the second's transaction 77 was under way.
abbrev stopped_batch : BatchState
stopped_batch = record a_batch {
  purchases =
      (record a_purchase { sol_amount = 500000000 })
      ∷ (record a_purchase {
        index = 1;
        sol_amount = 500000000;
        status = PurchaseStatus.in_progress;
        signature = none;
        sent_attempts = (record { signature = 77; last_valid_block_height = 900; at = 5 }) ∷ [];
      })
      ∷ [];
}

abbrev stopped_file : BatchLoader
stopped_file file = if file == 30 then some stopped_batch else none

abbrev no_answer : Asks
no_answer s limit = unknown

abbrev stopped_state : LotteryState
stopped_state = record (a_state []) {
  token_buys = (record a_buy { status = BuyStatus.in_progress }) ∷ [];
  sends =
      (record (a_delivery 1 10 3000000000 (some 40)) { status = SendStatus.in_progress })
      ∷ a_delivery 2 11 1000000000 none
      ∷ [];
}

resume_lottery-BuysOnlyRest_example :
    (run : ResumedRun) × (resume_lottery no_answer stopped_file 60000 (some stopped_state)
      ≡ ok (some run))
    × BuysOnlyRest no_answer stopped_file stopped_state run
unfolding is_unfinished
resume_lottery-BuysOnlyRest_example =
    resume_lottery-BuysOnlyRest no_answer stopped_file stopped_state 60000 refl

-- Three of the four SOL are left to buy: both halves count as spent.
buys_three :
    (resume_lottery no_answer stopped_file 60000 (some stopped_state) >>= λ o.
    ok (elim o [ none ↦ [] | some run ↦ map (λ b. b.sol_amount) run.plan.buys ]))
    ≡ ok (3000000000 ∷ [])
unfolding resume_lottery purchases_that_may_have_landed
buys_three = refl

-- The keeper, 9, paid 1000 lamports in each transaction and got 50 units of the coin 1.
abbrev node_transaction : Signature → RawAnswer
node_transaction s =
    a_transaction
      (some (record {
        err_set = false;
        pre_balances = some (some 700 ∷ some 5000 ∷ []);
        post_balances = some (some 700 ∷ some 4000 ∷ []);
        pre_tokens = none;
        post_tokens =
            some ((record { owner = some 9; mint_of = some 1; ui_amount = some 50 }) ∷ []);
      }))
      (some 8 ∷ some 9 ∷ [])

abbrev rows_from : ℕ → List Signature → List AnswerRow
rows_from id [] = []
rows_from id (s ∷ ss) =
    (record { row_id = some id; row_error = false; row_result = node_transaction s })
    ∷ rows_from (suc id) ss

-- Each even call fails.
abbrev flaky : RpcBatch
flaky call chunk = if call % 2 == 0 then none else some (rows_from 0 chunk)

rows_below :
    (i id : ℕ) (ss : List Signature) (m : List (ℕ × AnswerRow))
    → i < id
    → map_get i (by_id (rows_from id ss) m) ≡ map_get i m
unfolding by_id
rows_below i id [] m h = refl
rows_below i id (s ∷ ss) m h =
    rows_below i (suc id) ss _ (omega arith) ∙ (map_get-set i id _ m ∙ ground (arith, h))

rows_from-AnswersAll :
    (id : ℕ) (ss : List Signature) (m : List (ℕ × AnswerRow))
    → AnswersAll node_transaction 9 (by_id (rows_from id ss) m) id ss
unfolding by_id
rows_from-AnswersAll id [] m = tt
rows_from-AnswersAll id (s ∷ ss) m = (
  (
    record { row_id = some id; row_error = false; row_result = node_transaction s },
    rows_below id (suc id) ss _ (omega arith) ∙ (map_get-set id id _ m ∙ rw (==_refl id) refl),
    refl,
    refl,
  ),
  rows_from-AnswersAll (suc id) ss _,
)

flaky-IsAnswered : IsAnswered node_transaction 9 flaky
unfolding asked_twice
flaky-IsAnswered call chunk =
    (rows_from 0 chunk, by_test (call % 2 == 0) refl, rows_from-AnswersAll 0 chunk [])
  where
    by_test :
        (b : Bool)
        → (call % 2 == 0) ≡ b
        → (elim (if b then none else some (rows_from 0 chunk)) [
          | some r ↦ some r
          | none ↦ flaky (suc call) chunk
        ])
          ≡ some (rows_from 0 chunk)
    by_test true e = ground (arith, e)
    by_test false e = refl

read_keeper_effects_lem_example :
    map_get 5 (read_keeper_effects flaky (some 1) 9 (4 ∷ 5 ∷ 4 ∷ 0 ∷ 6 ∷ [])) ≡ (
      if has 5 (4 ∷ 5 ∷ 4 ∷ 0 ∷ 6 ∷ []) && not (5 == 0)
      then effect_on_chain node_transaction 9 5
      else none)
read_keeper_effects_lem_example =
    read_keeper_effects_lem node_transaction 9 flaky (some 1) (4 ∷ 5 ∷ 4 ∷ 0 ∷ 6 ∷ [])
      flaky-IsAnswered 5

token_deltas_for_lem_example :
    or_none_left (
      map_get 1 (
        token_deltas_for none
          (some ((record { owner = some 9; mint_of = some 1; ui_amount = some 50 }) ∷ []))
          9))
    ≡ sum_map
        (amount_for 9 1)
        ((record { owner = some 9; mint_of = some 1; ui_amount = some 50 }) ∷ [])
      ⊖ 0
token_deltas_for_lem_example =
    token_deltas_for_lem none
      (some ((record { owner = some 9; mint_of = some 1; ui_amount = some 50 }) ∷ [])) 9 1

all-honest :
    (table : List (ℕ × AnswerRow)) (id : ℕ) (ss : List Signature)
    → AnswersAll node_transaction 9 table id ss
    → AnswersHonestly node_transaction 9 table id ss
all-honest table id [] h = tt
all-honest table id (s ∷ ss) h = (
  λ row is fine.
      subst (λ (r : AnswerRow). r.row_result ≡ node_transaction s) (some_injective (sym h.0.1 ∙ is))
        h.0.3,
  all-honest table (suc id) ss h.1,
)

flaky-IsTruthful : IsTruthful node_transaction 9 flaky
flaky-IsTruthful call chunk rows e = by_test (call % 2 == 0) e
  where
    by_test :
        (b : Bool)
        → (if b then none else some (rows_from 0 chunk)) ≡ some rows
        → AnswersHonestly node_transaction 9 (by_id rows []) 0 chunk
    by_test true found = cc
    by_test false found =
        subst (λ r. AnswersHonestly node_transaction 9 (by_id r []) 0 chunk) (some_injective found)
          (all-honest _ 0 chunk (rows_from-AnswersAll 0 chunk []))

abbrev read_effect : KeeperEffect
read_effect = record {
  on_chain = true;
  debit = pos 1000;
  token_deltas = (1, pos 50) ∷ [];
  failed_on_chain = false;
}

read_keeper_effects-IsSound_example : effect_on_chain node_transaction 9 5 ≡ some read_effect
unfolding read_keeper_effects
read_keeper_effects-IsSound_example =
    read_keeper_effects-IsSound node_transaction 9 flaky none (5 ∷ []) flaky-IsTruthful 5
      read_effect refl

debits_read :
    read_keeper_debits flaky (some 2) 9 (4 ∷ 5 ∷ 4 ∷ 6 ∷ [])
    ≡ (4, some (pos 1000)) ∷ (5, some (pos 1000)) ∷ (6, some (pos 1000)) ∷ []
unfolding read_keeper_debits
debits_read = refl
