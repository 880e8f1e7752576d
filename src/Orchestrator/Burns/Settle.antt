-- ===== src/Orchestrator/Burns/Settle.antt =====
-- `settlePending` (offchain/orchestrator/burns.ts) keeps every burn accounted for, and where it
-- lets the coin go on no burn of the coin is open.
use pumpling.Base.{
  >>=-ok, All, Bool, Bool-cases, List, Option-cases, Result, [], ap, arith, false, filter,
  filter-holds, find?, if◌then◌else◌, inl, inr, ok, refl, some, subst, sum_map, sum_map-update, sym,
  true, update, ℕ, ◌+◌, ◌>>=◌, ◌∙◌, ◌∷◌, ◌≡◌, ◌≤◌, ◌⊎◌,
}
use pumpling.Base.Text.{Text, codes}
use pumpling.Orchestrator.Burns.{
  BurnEnv, SentBurn, burned_so_far, complete_burn, fail_burn, is_open, settle_one, settle_open,
  settle_pending, settle_verdict,
}
use pumpling.Orchestrator.Burns.Honesty.{IsHonest, IsSound, live}
use pumpling.Orchestrator.Burns.Ids.{
  AllFound, Ascending, Numbered, Numbered-update, filter-found, found-update,
}
use pumpling.Orchestrator.Burns.Writes.{HasToken, add_burned_lem, gain, update_burn_lem}
use pumpling.Orchestrator.State.{add_burned, is_burn, update_burn}
use pumpling.Orchestrator.Types.{BurnRecord, LotteryState, Mint, Signature, Time}
use pumpling.Solana.SignatureOutcome.{SignatureOutcome, absent, landed, unknown}

-- What holds between two records of the loop, of which `rest` is left.
record Loop (fate : Signature → Bool) (mint : Mint) (log : List SentBurn) (state : LotteryState)
    (rest : List BurnRecord) : Type 0 where
  sound : IsSound fate state log
  token : HasToken mint state
  found : AllFound state.burns rest
  floor : ℕ
  grows : Ascending floor rest
  mine : All (λ b. is_open mint b ≡ true) rest
  covered : sum_map (live fate mint) state.burns ≤ sum_map (live fate mint) rest

-- A change that closes a record.
abbrev Closes : (BurnRecord → BurnRecord) → Type 0
Closes change =
    (b : BurnRecord) → ((change b).id ≡ b.id) × ((m : Mint) → is_open m (change b) ≡ false)

abbrev closed_state : ℕ → (BurnRecord → BurnRecord) → Time → LotteryState → LotteryState
closed_state id change now state = record state {
  burns = update (is_burn id) (λ b. record (change b) { updated_at = now }) state.burns;
}

module _ (fate : Signature → Bool) (mint : Mint) (log : List SentBurn) where
  -- Closing an open record takes what it destroys out of the open burns.
  live-closed :
      (change : BurnRecord → BurnRecord) (now : Time) (state : LotteryState) (b : BurnRecord)
      (m : Mint)
      → Closes change
      → find? (is_burn b.id) state.burns ≡ some b
      → sum_map (live fate m) (closed_state b.id change now state).burns + live fate m b
        ≡ sum_map (live fate m) state.burns
  live-closed change now state b m closes f =
      let gone : live fate m (record (change b) { updated_at = now }) ≡ 0 =
        ground (arith, (closes b).1 m) in
      omega (
        arith,
        gone,
        sum_map-update (live fate m) (is_burn b.id) (λ b. record (change b) { updated_at = now })
            state.burns b f,
      )

  -- The loop goes on after a record whose loss is counted by `gained`, for every coin.
  close-Loop :
      (change : BurnRecord → BurnRecord) (now : Time) (state s : LotteryState) (b : BurnRecord)
      (bs : List BurnRecord)
      → Closes change
      → Loop fate mint log state (b ∷ bs)
      → s.burns ≡ (closed_state b.id change now state).burns
      → HasToken mint s
      → ((m : Mint) → burned_so_far m state + live fate m b ≤ burned_so_far m s)
      → Loop fate mint log s bs
  close-Loop change now state s b bs closes l e tok gained = record {
    sound = record {
      accounted = λ m. omega (
        arith,
        ap (sum_map (live fate m)) e,
        l.sound.accounted m,
        gained m,
        live-closed change now state b m closes l.found.0,
      );
      numbered = subst (Numbered 0) (sym e) (
          Numbered-update 0 b.id (λ b. record (change b) { updated_at = now }) state.burns
            (λ c. (closes c).0) l.sound.numbered);
    };
    token = tok;
    found =
        subst (λ cs. AllFound cs bs) (sym e)
          (found-update b.id (λ b. record (change b) { updated_at = now }) state.burns bs
            (λ c. (closes c).0) l.grows.1 l.found.1);
    floor = b.id;
    grows = l.grows.1;
    mine = l.mine.1;
    covered = omega (
      arith,
      ap (sum_map (live fate mint)) e,
      l.covered,
      live-closed change now state b mint closes l.found.0,
    );
  }

  -- A record that burns nothing may be closed as failed.
  fail-Loop :
      (message : Text) (now : Time) (state : LotteryState) (b : BurnRecord) (bs : List BurnRecord)
      → ((m : Mint) → live fate m b ≡ 0)
      → Loop fate mint log state (b ∷ bs)
      → Loop fate mint log (closed_state b.id (fail_burn message) now state) bs
  fail-Loop message now state b bs nothing_live l =
      close-Loop (fail_burn message) now state _ b bs (λ c. (refl, λ m. ground arith)) l refl
        l.token (λ m. omega (arith, nothing_live m))

  -- A record that landed is closed and counted.
  complete-Loop :
      (s : Signature) (now : Time) (state counted : LotteryState) (b : BurnRecord)
      (bs : List BurnRecord)
      → Loop fate mint log state (b ∷ bs)
      → counted.burns ≡ (closed_state b.id (complete_burn s) now state).burns
      → ((m : Mint) → burned_so_far m counted ≡ burned_so_far m state + gain m mint b.raw_amount)
      → HasToken mint counted
      → Loop fate mint log counted bs
  complete-Loop s now state counted b bs l e gains tok =
      close-Loop (complete_burn s) now state counted b bs (λ c. (refl, λ m. ground arith)) l e tok
        (λ m. ground (arith, gains m, l.mine.0))

  abbrev Goes : List BurnRecord → Result (Bool × LotteryState) → Type 0
  Goes bs r =
      (v : Bool × LotteryState) × (r ≡ ok v)
      × IsSound fate v.1 log
      × HasToken mint v.1
      × (v.0 ≡ true → Loop fate mint log v.1 bs)

  Goes-on :
      (r : Result (Bool × LotteryState)) (state : LotteryState) (bs : List BurnRecord)
      → r ≡ ok (true, state)
      → Loop fate mint log state bs
      → Goes bs r
  Goes-on r state bs e l = ((true, state), e, l.sound, l.token, λ _. l)

  -- A verdict that the burn came to nothing.
  settle_failed :
      (message : Text) (now : Time) (b : BurnRecord) (state : LotteryState) (bs : List BurnRecord)
      → ((m : Mint) → live fate m b ≡ 0)
      → Loop fate mint log state (b ∷ bs)
      → Goes bs (update_burn b.id (fail_burn message) now state >>= λ done. ok (true, done))
  settle_failed message now b state bs nothing_live l =
      Goes-on _ _ bs
        (>>=-ok _ (λ done. ok (true, done)) _
          (update_burn_lem b.id (fail_burn message) now state b l.found.0))
        (fail-Loop message now state b bs nothing_live l)

  settle_verdict_lem :
      (now : Time) (b : BurnRecord) (s : Signature) (v : SignatureOutcome) (state : LotteryState)
      (bs : List BurnRecord)
      → ((v ≡ absent) ⊎ (v ≡ SignatureOutcome.failed) → (m : Mint) → live fate m b ≡ 0)
      → Loop fate mint log state (b ∷ bs)
      → Goes bs (settle_verdict mint now b s v state)
  unfolding settle_verdict
  settle_verdict_lem now b s landed state bs never l =
      let done = closed_state b.id (complete_burn s) now state in
      let (counted, e, same, gains, tok) = add_burned_lem mint b.raw_amount now done l.token in
      Goes-on _ counted bs
        (>>=-ok _ (λ d. add_burned mint b.raw_amount now d >>= λ c. ok (true, c)) done
            (update_burn_lem b.id (complete_burn s) now state b l.found.0)
          ∙ >>=-ok _ (λ c. ok (true, c)) counted e)
        (complete-Loop s now state counted b bs l same gains tok)
  settle_verdict_lem now b s absent state bs never l =
      settle_failed (codes "never landed") now b state bs (never (inl refl)) l
  settle_verdict_lem now b s SignatureOutcome.failed state bs never l =
      settle_failed (codes "failed on chain") now b state bs (never (inr refl)) l
  settle_verdict_lem now b s unknown state bs never l =
      ((false, state), refl, l.sound, l.token, λ e. cc)

  -- Only the open burns of the coin can be live.
  live-filter :
      (bs : List BurnRecord)
      → sum_map (live fate mint) bs ≤ sum_map (live fate mint) (filter (is_open mint) bs)
  live-filter [] = omega arith
  live-filter (b ∷ bs) = ground (arith, live-filter bs)

  module _ (env : BurnEnv) (honest : IsHonest fate env) where
    settle_one_lem :
        (b : BurnRecord) (state : LotteryState) (bs : List BurnRecord)
        → Loop fate mint log state (b ∷ bs)
        → Goes bs (settle_one env mint b state)
    unfolding settle_one
    settle_one_lem b state bs l = elim (Option-cases b.pending_signature) [
      | inl none_signed ↦
          rw none_signed
            (settle_failed (codes "never signed") env.now b state bs (λ m. ground arith) l)
      | inr (s, signed) ↦ rw signed (
          settle_verdict_lem env.now b s (env.outcome s b.pending_last_valid_block_height) state bs
            (λ v m. ground (
              arith,
              v,
              honest.absent_never s b.pending_last_valid_block_height,
              honest.failed_never s b.pending_last_valid_block_height,
            ))
            l)
    ]

    -- The loop ends, every burn is accounted for, and if it ran to its end none is open.
    settle_open_lem :
        (bs : List BurnRecord) (state : LotteryState)
        → Loop fate mint log state bs
        → Goes [] (settle_open env mint bs state)
    unfolding settle_open
    settle_open_lem [] state l = ((true, state), refl, l.sound, l.token, λ _. l)
    settle_open_lem (b ∷ bs) state l =
        let (v, e, sound, token, next) = settle_one_lem b state bs l in
        let step = λ (t : Bool). if t then settle_open env mint bs v.1 else ok (false, v.1) in
        let first =
          >>=-ok (settle_one env mint b state)
            (λ r. if r.0 then settle_open env mint bs r.1 else ok (false, r.1)) v e in
        elim (Bool-cases v.0) [
          | inl on ↦
              let g = settle_open_lem bs v.1 (next on) in
              (g.0, first ∙ ap step on ∙ g.1, g.2, g.3, g.4)
          | inr off ↦ ((false, v.1), first ∙ ap step off, sound, token, λ on. cc)
        ]

    -- Where every burn is accounted for, the coin has a record, and the answers agree with the
    -- chain: `settlePending` returns, keeps every burn accounted for and the coin's record, and
    -- where it lets the coin go on no open burn of the coin has a transaction that burns anything.
    pub settle_pending_lem :
        (state : LotteryState)
        → IsSound fate state log
        → HasToken mint state
        → (v : Bool × LotteryState) × (settle_pending env mint state ≡ ok v)
          × IsSound fate v.1 log
          × HasToken mint v.1
          × (v.0 ≡ true → sum_map (live fate mint) v.1.burns ≡ 0)
    unfolding settle_pending
    settle_pending_lem state sound token =
        let (found, grows) = filter-found (is_open mint) state.burns sound.numbered in
        let (v, e, s, t, end) = settle_open_lem (filter (is_open mint) state.burns) state (record {
          sound = sound;
          token = token;
          found = found;
          floor = 0;
          grows = grows;
          mine = filter-holds (is_open mint) state.burns;
          covered = live-filter state.burns;
        }) in
        (v, e, s, t, λ on. omega (arith, (end on).covered))
