-- ===== src/Orchestrator/Refunds/Runner/Once.antt =====
-- `sendChunk` (offchain/orchestrator/refunds.ts) looks up pending refunds and sends the
-- others of a chunk.
use pumpling.Base.{
  >>=-ok, All, All-filter, All-map, Bool, List, Option, Result, [], any, any-find?, any-update, ap,
  false, filter, if◌then◌else◌, none, ok, refl, refund_not_found, some, subst, sym, true, update,
  ◌>>=◌, ◌∙◌, ◌∷◌, ◌≡◌,
}
use pumpling.Orchestrator.Refunds.Runner.{
  CheckedChunk, Lookup, RefundCall, RefundEnv, RefundSend, add_ready, apply_lookup, arrived,
  check_chunk, close_refund, free, landed_of, look_up, lookup_of, lookup_pending, outcome_change,
  send_chunk, send_ready, start_refund, update_each, update_own,
}
use pumpling.Orchestrator.State.{assign-found, is_refund, update_refund}
use pumpling.Orchestrator.Types.{LotteryState, Mint, RefundRecord, Signature, Time, Wallet}
use pumpling.Solana.SignatureOutcome.{SignatureOutcome, absent, landed, unknown}

-- The refund has a record.
abbrev pub HasRefund : LotteryState → RefundRecord → Type 0
HasRefund state r = any (is_refund r.mint r.recipient) state.refunds ≡ true

-- The same refunds have records.
abbrev pub SameRefunds : LotteryState → LotteryState → Type 0
SameRefunds s t =
    (m : Mint) (w : Wallet) → any (is_refund m w) t.refunds ≡ any (is_refund m w) s.refunds

pub AllHave-same :
    (s t : LotteryState) (rs : List RefundRecord)
    → SameRefunds s t
    → All (HasRefund s) rs
    → All (HasRefund t) rs
AllHave-same s t rs same h =
    All-map (HasRefund s) (HasRefund t) rs (λ r k. same r.mint r.recipient ∙ k) h

-- A step that returns and keeps the records.
abbrev pub Ends : LotteryState → Result LotteryState → Type 0
Ends s r = (t : LotteryState) × (r ≡ ok t) × SameRefunds s t

-- A change that keeps whose refund it is.
abbrev Keeps : (RefundRecord → RefundRecord) → Type 0
Keeps change =
    (r : RefundRecord) → ((change r).mint ≡ r.mint) × ((change r).recipient ≡ r.recipient)

Ends-update_own :
    (change : RefundRecord → RefundRecord) (now : Time) (r : RefundRecord) (s : LotteryState)
    → Keeps change
    → HasRefund s r
    → Ends s (update_own change now r s)
unfolding update_refund
Ends-update_own change now r s keeps has_record =
    let (q, found, _) = any-find? (is_refund r.mint r.recipient) s.refunds has_record in
    let stamped = λ (x : RefundRecord). record (change x) { updated_at = now } in
    (
      record s { refunds = update (is_refund r.mint r.recipient) stamped s.refunds },
      >>=-ok _ (λ refunds. ok (record s { refunds = refunds })) _
          (assign-found (is_refund r.mint r.recipient) stamped refund_not_found s.refunds q found),
      λ m w.
          any-update (is_refund m w) (is_refund r.mint r.recipient) stamped s.refunds
            (λ x. cc ((keeps x).0, (keeps x).1)),
    )

Ends-apply_lookup :
    (env : RefundEnv) (r : RefundRecord) (l : Lookup) (s : LotteryState)
    → HasRefund s r
    → Ends s (apply_lookup env r l s)
Ends-apply_lookup env r (arrived g) s h =
    Ends-update_own (close_refund g) env.now r s (λ x. (refl, refl)) h
Ends-apply_lookup env r Lookup.uncertain s h = (s, refl, λ m w. refl)
Ends-apply_lookup env r free s h = (s, refl, λ m w. refl)

Ends-update_each :
    (change : RefundRecord → RefundRecord → RefundRecord) (rs : List RefundRecord) (now : Time)
    (s : LotteryState)
    → ((r : RefundRecord) → Keeps (change r))
    → All (HasRefund s) rs
    → Ends s (update_each change rs now s)
unfolding update_each
Ends-update_each change [] now s keeps h = (s, refl, λ m w. refl)
Ends-update_each change (r ∷ rs) now s keeps h =
    let (t, e, same) = Ends-update_own (change r) now r s (keeps r) h.0 in
    let (u, f, same') = Ends-update_each change rs now t keeps (AllHave-same s t rs same h.1) in
    (u, >>=-ok _ (update_each change rs now) t e ∙ f, λ m w. same' m w ∙ same m w)

-- No pending signature stands against the refund: it has none, or the node, asked without a block
-- height limit, calls it absent or failed.
abbrev never_paid : SignatureOutcome → Bool
never_paid landed = false
never_paid unknown = false
never_paid absent = true
never_paid SignatureOutcome.failed = true

abbrev nothing_pending : RefundEnv → Option Signature → Bool
nothing_pending env none = true
nothing_pending env (some s) = never_paid (env.outcome s none)

abbrev pub not_held_back : RefundEnv → RefundRecord → Bool
not_held_back env r = nothing_pending env r.pending_signature

add_ready-landed_of :
    (r : RefundRecord) (s : Signature) (o : SignatureOutcome) (c : CheckedChunk)
    → (add_ready r (lookup_of s (landed_of o)) c).ready
      ≡ (if never_paid o then r ∷ c.ready else c.ready)
add_ready-landed_of r s landed c = refl
add_ready-landed_of r s unknown c = refl
add_ready-landed_of r s absent c = refl
add_ready-landed_of r s SignatureOutcome.failed c = refl

add_ready-lookup_pending :
    (env : RefundEnv) (r : RefundRecord) (o : Option Signature) (c : CheckedChunk)
    → (add_ready r (lookup_pending env o) c).ready
      ≡ (if nothing_pending env o then r ∷ c.ready else c.ready)
add_ready-lookup_pending env r none c = refl
add_ready-lookup_pending env r (some s) c = add_ready-landed_of r s (env.outcome s none) c

add_ready-state :
    (r : RefundRecord) (l : Lookup) (c : CheckedChunk) → (add_ready r l c).state ≡ c.state
add_ready-state r (arrived g) c = refl
add_ready-state r Lookup.uncertain c = refl
add_ready-state r free c = refl

-- The first loop returns, with exactly those refunds.
check_chunk_lem :
    (env : RefundEnv) (rs : List RefundRecord) (s : LotteryState)
    → All (HasRefund s) rs
    → (c : CheckedChunk) × (check_chunk env rs s ≡ ok c)
      × SameRefunds s c.state
      × (c.ready ≡ filter (not_held_back env) rs)
unfolding check_chunk
check_chunk_lem env [] s h = (record { ready = []; state = s }, refl, (λ m w. refl), refl)
check_chunk_lem env (r ∷ rs) s h =
    let (t, e, same) = Ends-apply_lookup env r (look_up env r) s h.0 in
    let (c, f, same', ready) = check_chunk_lem env rs t (AllHave-same s t rs same h.1) in
    (
      add_ready r (look_up env r) c,
      >>=-ok _ (λ looked. check_chunk env rs looked >>= λ c. ok (add_ready r (look_up env r) c)) t e
          ∙ >>=-ok _ (λ c. ok (add_ready r (look_up env r) c)) c f,
      (λ m w.
          ap (λ (u : LotteryState). any (is_refund m w) u.refunds)
            (add_ready-state r (look_up env r) c)
          ∙ (same' m w ∙ same m w)),
      add_ready-lookup_pending env r r.pending_signature c
          ∙ ap (λ (qs : List RefundRecord). if not_held_back env r then r ∷ qs else qs) ready,
    )

Keeps-outcome_change : (o : RefundSend) (r : RefundRecord) → Keeps (outcome_change o r)
Keeps-outcome_change (RefundSend.sent g) r = λ x. (refl, refl)
Keeps-outcome_change (RefundSend.refused m g) r = λ x. (refl, refl)

send_ready_lem :
    (env : RefundEnv) (rs : List RefundRecord) (s : LotteryState)
    → All (HasRefund s) rs
    → (c : RefundCall) × (send_ready env rs s ≡ ok c) × (c.paid ≡ rs) × SameRefunds s c.state
unfolding send_ready
send_ready_lem env [] s h = (record { paid = []; state = s }, refl, refl, λ m w. refl)
send_ready_lem env (r ∷ rs) s h =
    let start = λ (q : RefundRecord). start_refund q.attempts in
    let change = outcome_change (env.send (r ∷ rs)) in
    let (t, e, same) = Ends-update_each start (r ∷ rs) env.now s (λ q x. (refl, refl)) h in
    let (u, f, same') =
      Ends-update_each change (r ∷ rs) env.now t (Keeps-outcome_change (env.send (r ∷ rs)))
        (AllHave-same s t (r ∷ rs) same h) in
    (
      record { paid = r ∷ rs; state = u },
      >>=-ok _
            (λ started. update_each change (r ∷ rs) env.now started >>= λ done.
              ok (record { paid = r ∷ rs; state = done }))
            t e
          ∙ >>=-ok _ (λ done. ok (record { paid = r ∷ rs; state = done })) u f,
      refl,
      λ m w. same' m w ∙ same m w,
    )

-- A chunk of refunds that have records: the call returns, keeps the records, and puts into its
-- transaction each of them once: exactly those without a pending signature and those whose pending
-- signature the node, asked without a block height limit, calls absent or failed.
pub send_chunk_lem :
    (env : RefundEnv) (chunk : List RefundRecord) (s : LotteryState)
    → All (HasRefund s) chunk
    → (c : RefundCall) × (send_chunk env chunk s ≡ ok c)
      × (c.paid ≡ filter (not_held_back env) chunk)
      × ((m : Mint) (w : Wallet)
          → any (is_refund m w) c.state.refunds ≡ any (is_refund m w) s.refunds)
unfolding send_chunk
send_chunk_lem env chunk s h =
    let (c, e, same, ready) = check_chunk_lem env chunk s h in
    let fit = All-filter (HasRefund s) (not_held_back env) chunk h in
    let known =
      AllHave-same s c.state c.ready same (subst (λ rs. All (HasRefund s) rs) (sym ready) fit) in
    let (call, f, paid, same') = send_ready_lem env c.ready c.state known in
    (
      call,
      >>=-ok _ (λ c. send_ready env c.ready c.state) c e ∙ f,
      paid ∙ ready,
      λ m w. same' m w ∙ same m w,
    )
