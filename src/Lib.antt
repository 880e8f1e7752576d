-- ===== src/Lib.antt =====
-- Pumpling's off-chain buyer (offchain/): it buys the coins of a round, burns and delivers them to
-- the backers, and keeps what it did in two files of records.
--
-- How the parts work together: the round's state manager holds the purchases of each coin, the
-- deliveries, the burns and the refunds. What a coin's purchases brought is read from the batch
-- files of the scheduler (purchased tokens); the shares say who is owed what of it; a call of
-- `burnDueFor` burns the fire's part, and a delivery round sends the rest. Both write a signature
-- down before they send, and ask what became of it (signature outcome) before they send again.
--
-- Which file models what:
--   Orchestrator/Types           offchain/orchestrator/types.ts, the records
--   Orchestrator/Shares          offchain/orchestrator/shares.ts: `sharesOf`, `burnWeightOf`,
--                                `burnOwed`, `deliveryOwed`; Bounds and Conservation are its proofs
--   Orchestrator/State           offchain/orchestrator/state.ts, a function for each method that
--                                changes the state; Metrics has the counters, Summary the proofs
--   Orchestrator/PurchaseTokens  offchain/orchestrator/purchaseTokens.ts: `tokensBought`; Refresh has
--                                `refreshPurchaseTokens`, Grounded what it puts on record
--   Orchestrator/Burns           offchain/orchestrator/burns.ts: `settlePending` and
--                                `burnDueFor`. Honesty says what is relied on, and Ids, Writes,
--                                Settle, Safety, NeverOver and Rounds are the proofs;
--                                ProgramErrors has `matchError`
--   Orchestrator/Semaphore       offchain/orchestrator/semaphore.ts; Holders has the tasks
--   Orchestrator/SendRounds      offchain/orchestrator/sendRounds.ts: Plan (`calculateSendN`,
--                                `assignRounds`, `generateSendRecords`), Deficit
--                                (`calculateDeficitAmounts`), Pending (`checkPendingSend`), Batch
--                                (`sendBatch`)
--   Scheduler/Types, State       offchain/scheduler/types.ts and state.ts: the purchases of a coin;
--                                Metrics has the counters
--   Scheduler/Batch              offchain/scheduler/batch.ts: the helpers; Failures has
--                                `recordPurchaseFailure`, Main the main window,
--                                Retry the retry window and `run_batch`, what `batchBuy` does after
--                                its initialisation. Keeps, Steps, MainEnds, RetryEnds and Whole are
--                                the proof that it ends; NoDouble, Careful and OneAtATime are about
--                                the transactions that it signs, Bounds about amounts and times
--   Scheduler/Slippage           offchain/scheduler/slippage.ts
--   Scheduler/Errors             offchain/scheduler/errors.ts, with `extractCustomErrorCode` of
--                                offchain/pumpfun/errors.ts
--   Solana/RateLimiter           offchain/solana/rateLimiter.ts
--   Solana/SignatureOutcome      offchain/solana/signatureOutcome.ts
--   Orchestrator/RefundLedger    offchain/orchestrator/refundLedger.ts: `collectRoundSignatures`,
--                                `settleDelivery` (Charges), `buySpend` (Spending) and
--                                `buildRefundLedger` (Pool)
--   Orchestrator/Refunds         offchain/orchestrator/refunds.ts: `planRefunds` (Plan) and
--                                `refundUnspent` (Runner)
--   Buy                          offchain/buy.ts: the venue of a purchase, with `tagVenue` of
--                                offchain/solana/transaction.ts; OneSender is its proof
--   Orchestrator/Resume          offchain/orchestrator/resume.ts: `planResume` and `resumeLottery` up
--                                to its call of `runBuyAndSend`; Revive, Plan, Spent and Again are
--                                the proofs
--   Solana/Debits                offchain/solana/debits.ts; Deltas, Reading and Honest are the proofs
--   Orchestrator/Settle          offchain/orchestrator/settle.ts: `topUpsFor`; Whole has
--                                `settleAfterBuying` and `finishBurns`; LookedUp, Added, TopUp and
--                                Burned are the proofs
--   Pumpfun                      offchain/pumpfun/buy.ts: `parsePumpGlobal` (Global),
--                                `parseMaxFeeBps` (Fees), `calculateBuyParams` and the data of the
--                                purchase (Params)
--   Base                         shared lists, options, texts, division, doubles and results
--   Examples                     the theorems at concrete inputs, and runs
--
-- Choices. Names that are only compared (mints, wallets, signatures, files, identifiers) are
-- numbers; a burn's identifier is its serial number. A SOL amount is a whole number of lamports,
-- and divisions of amounts are exact where the code divides doubles; the rounds of a delivery, the
-- lamports of a purchase on the curve and the fee rates are rounded as doubles are (Base/Doubles).
-- A debit, which may be below zero, is a pair of what was paid and what came back. Bigints are
-- natural numbers, where the code has checked that they are not negative. `Date.now()` is an
-- argument. A method that saves the file returns the state that the file then holds. An exception
-- is a value of `Result`. What the node or the signer answers is an argument of the call.
-- `send_batch` runs on fuel, since it calls itself on the halves of a batch: each half is shorter
-- than the batch, so fuel above the number of deliveries is enough; `send_chunks` runs on the
-- number of refunds, and `retry_loop` on two more than the retries. Each call of a batch to the
-- outside gets its answer from `Outside`, by the number of calls before it. `read_chunks` runs on
-- the number of signatures. What the code reads from JSON it tests field by field; a field that
-- fails its test is `none`.
--
-- Not modelled: the loop over rounds with its token account rules (sendRounds.ts), the order of a
-- round's parts (orchestrator.ts), the initialisation of a batch (scheduler/batch.ts), the purchase
-- venues but for what is read and built at pump.fun, the HTTP interface; the on-chain program, the
-- web backend and the web interface, which are written in other languages or only present.
pub mod Base
pub mod Buy
pub mod Examples
pub mod Orchestrator
pub mod Pumpfun
pub mod Scheduler
pub mod Solana
