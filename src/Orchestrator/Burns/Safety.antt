-- ===== src/Orchestrator/Burns/Safety.antt =====
-- `burnDueFor` (offchain/orchestrator/burns.ts) never burns more than is owed, whatever became of
-- the burns before it.
use pumpling.Base.{
  >>=-ok, Bool, List, Option, Result, [], any-find?, ap, arith, false, find?, inl, inr, length,
  none, ok, refl, some, subst, sum_map, sum_map-append, sum_map-update, sym, token_buy_not_found,
  true, update, ℕ, ◌++◌, ◌+◌, ◌>>=◌, ◌∙◌, ◌∷◌, ◌≡◌, ◌≢◌, ◌≤◌, ◌⊎◌,
}
use pumpling.Base.Text.{Text}
use pumpling.Orchestrator.Burns.{
  BurnCall, BurnEnv, BurnResult, SendOutcome, SentBurn, SignedBurn, after_send, block_if,
  block_mint, blocked, burned, burned_so_far, complete_burn, handle_error, keep_signature, new_burn,
  or_else, refuse_burn, refused, send_burn, sent, waiting,
}
use pumpling.Orchestrator.Burns.Honesty.{IsHonest, IsSound, live, spent}
use pumpling.Orchestrator.Burns.Ids.{Numbered, Numbered-append, Numbered-update, found-last}
use pumpling.Orchestrator.Burns.Writes.{HasToken, add_burned_lem, burned_in-update, update_burn_lem}
use pumpling.Orchestrator.State.{
  add_burn, add_burned, assign-found, is_burn, is_mint, update_burn, update_summary,
  update_token_buy,
}
use pumpling.Orchestrator.Types.{BurnRecord, LotteryState, Mint, Signature, Time, TokenBuyRecord}

-- Blocking a coin that has a record returns, and changes neither the burns nor what was burned.
block_mint_lem :
    (mint : Mint) (reason : Text) (now : Time) (state : LotteryState)
    → HasToken mint state
    → (s : LotteryState) × (block_mint mint reason now state ≡ ok s)
      × (s.burns ≡ state.burns)
      × ((m : Mint) → burned_so_far m s ≡ burned_so_far m state)
unfolding update_token_buy
block_mint_lem mint reason now state h =
    let (t, found, _) = any-find? (is_mint mint) state.token_buys h in
    let change = λ (t : TokenBuyRecord). record t {
      burn_blocked = some (record { reason = reason; at = now });
      updated_at = now;
    } in
    (
      update_summary (record state { token_buys = update (is_mint mint) change state.token_buys }),
      >>=-ok _ (λ buys. ok (update_summary (record state { token_buys = buys }))) _
          (assign-found (is_mint mint) change token_buy_not_found state.token_buys t found),
      refl,
      λ m. ground (
        arith,
        burned_in-update m mint change state.token_buys t 0 (λ _. refl) (λ t. omega arith) found,
      ),
    )

module _ (fate : Signature → Bool) (mint : Mint) (log : List SentBurn) (state : LotteryState)
    (sound : IsSound fate state log) (token : HasToken mint state) (due : ℕ) (signed : SignedBurn)
    (now : Time) where
  abbrev fresh : BurnRecord
  fresh = new_burn mint due signed now state

  abbrev pub sending : SentBurn
  sending = record { signature = signed.signature; mint = mint; raw = due }

  abbrev serial : ℕ
  serial = length state.burns + 1

  abbrev written : List BurnRecord
  written = state.burns ++ (fresh ∷ [])

  fresh_found : find? (is_burn serial) written ≡ some fresh
  fresh_found = found-last 0 state.burns fresh sound.numbered (omega arith)

  abbrev changed : (BurnRecord → BurnRecord) → List BurnRecord
  changed f = update (is_burn serial) (λ b. record (f b) { updated_at = now }) written

  -- After the record's change, what it then counts for replaces what it counted for.
  IsSound-after :
      (f : BurnRecord → BurnRecord) (s : LotteryState)
      → ((b : BurnRecord) → (f b).id ≡ b.id)
      → s.burns ≡ changed f
      → ((m : Mint)
          → spent fate m (sending ∷ []) + burned_so_far m state
            ≤ burned_so_far m s + live fate m (record (f fresh) { updated_at = now }))
      → IsSound fate s (sending ∷ log)
  IsSound-after f s same e covers = record {
    accounted = λ m. omega (
      arith,
      ap (sum_map (live fate m)) e,
      sound.accounted m,
      covers m,
      sum_map-append (live fate m) state.burns (fresh ∷ []),
      sum_map-update (live fate m) (is_burn serial) (λ b. record (f b) { updated_at = now }) written
          fresh fresh_found,
    );
    numbered = subst (Numbered 0) (sym e) (
        Numbered-update 0 _ (λ b. record (f b) { updated_at = now }) written same
          (Numbered-append 0 state.burns fresh sound.numbered (omega arith)));
  }

  abbrev Ends : Result (BurnResult × LotteryState) → Type 0
  Ends r = (v : BurnResult × LotteryState) × (r ≡ ok v) × IsSound fate v.1 (sending ∷ log)

  abbrev after_write : (BurnRecord → BurnRecord) → LotteryState
  after_write f = record state { burns = changed f }

  written_update :
      (f : BurnRecord → BurnRecord)
      → update_burn serial f now (add_burn fresh state) ≡ ok (after_write f)
  unfolding add_burn
  written_update f = update_burn_lem serial f now (add_burn fresh state) fresh fresh_found

  -- The send returned: the burn is closed and counted.
  Ends-sent :
      (final : Bool) (s : Signature)
      → Ends (after_send final mint serial due signed.signature (sent s) now (add_burn fresh state))
  unfolding after_send
  Ends-sent final s =
      let done = after_write (complete_burn s) in
      let (counted, e, same, gains, _) = add_burned_lem mint due now done token in
      (
        (burned, counted),
        >>=-ok _ (λ d. add_burned mint due now d >>= λ c. ok (burned, c)) done
              (written_update (complete_burn s))
            ∙ >>=-ok _ (λ c. ok (burned, c)) counted e,
        IsSound-after (complete_burn s) counted (λ _. refl) same (λ m. ground (arith, gains m)),
      )

  -- The send failed in a way that leaves the burn possible: the record keeps a signature with the
  -- same fate.
  Ends-kept :
      (message : Text) (s : Signature)
      → fate s ≡ fate signed.signature
      → Ends (
          update_burn serial (keep_signature s message) now (add_burn fresh state) >>= λ kept.
          ok (waiting, kept))
  Ends-kept message s same = (
    (waiting, after_write (keep_signature s message)),
    >>=-ok _ (λ kept. ok (waiting, kept)) _ (written_update (keep_signature s message)),
    IsSound-after (keep_signature s message) _ (λ _. refl) refl (λ m. ground arith),
  )

  module _ (message : Text) (never : fate signed.signature ≡ false) where
    abbrev marked : LotteryState
    marked = after_write (refuse_burn message)

    marked-IsSound :
        (s : LotteryState)
        → s.burns ≡ marked.burns
        → ((m : Mint) → burned_so_far m s ≡ burned_so_far m state)
        → IsSound fate s (sending ∷ log)
    marked-IsSound s e same =
        IsSound-after (refuse_burn message) s (λ _. refl) e (λ m. ground (arith, same m))

    -- The program refused the burn: nothing was burned, and the coin may be blocked.
    Ends-refused :
        (final : Bool) (reason : Text)
        → Ends (
            update_burn serial (refuse_burn message) now (add_burn fresh state) >>= λ s.
            block_if final mint reason now s)
    unfolding block_if
    Ends-refused false reason = (
      (BurnResult.failed, marked),
      >>=-ok _ (λ s. block_if false mint reason now s) _ (written_update (refuse_burn message)),
      marked-IsSound marked refl (λ m. refl),
    )
    Ends-refused true reason =
        let (s, e, same, kept) = block_mint_lem mint reason now marked token in
        (
          (blocked, s),
          >>=-ok _ (λ s. block_if true mint reason now s) _ (written_update (refuse_burn message))
              ∙ >>=-ok _ (λ b. ok (blocked, b)) s e,
          marked-IsSound s same kept,
        )

  abbrev SameFate : (named : Option Signature) → Type 0
  SameFate named = fate (or_else named signed.signature) ≡ fate signed.signature

  Ends-error :
      (final : Bool) (message : Text) (named : Option Signature) (structural liftable : Option Text)
      → ((structural ≢ none) ⊎ (liftable ≢ none) → fate signed.signature ≡ false)
      → SameFate named
      → Ends (
          handle_error final mint serial signed.signature message named structural liftable now
            (add_burn fresh state))
  unfolding handle_error
  Ends-error final message named none none never same =
      Ends-kept message (or_else named signed.signature) same
  Ends-error final message named (some reason) liftable never same =
      Ends-refused message (never (inl (λ e. cc))) true reason
  Ends-error final message named none (some reason) never same =
      Ends-refused message (never (inr (λ e. cc))) final reason

  -- However the send ends, the call returns and every burn is accounted for.
  Ends-send :
      (env : BurnEnv) (final : Bool)
      → IsHonest fate env
      → env.sign_burn ≡ some signed
      → Ends
          (after_send final mint serial due signed.signature signed.send now (add_burn fresh state))
  Ends-send env final honest e = go signed.send refl
    where
      go :
          (o : SendOutcome)
          → signed.send ≡ o
          → Ends (after_send final mint serial due signed.signature o now (add_burn fresh state))
      go (sent s) f = Ends-sent final s
      go (refused message none) f =
          unfold after_send in
          Ends-error final message none _ _ (honest.refused_never signed message none e f) refl
      go (refused message (some s)) f =
          unfold after_send in
          Ends-error final message (some s) _ _ (honest.refused_never signed message (some s) e f)
            (ap fate (honest.named_same signed message s e f))

  -- `burnDueFor` from the record on: it returns, hands one transaction over, and every burn is
  -- accounted for.
  pub send_burn_lem :
      (env : BurnEnv) (final : Bool)
      → IsHonest fate env
      → env.sign_burn ≡ some signed
      → (c : BurnCall) × (send_burn final mint due signed now state ≡ ok c)
        × (c.sent_burns ≡ sending ∷ [])
        × IsSound fate c.state (sending ∷ log)
  unfolding send_burn
  send_burn_lem env final honest e =
      let (v, f, s) = Ends-send env final honest e in
      (
        record { result = v.0; state = v.1; sent_burns = sending ∷ [] },
        >>=-ok _ (λ r. ok (record { result = r.0; state = r.1; sent_burns = sending ∷ [] })) v f,
        refl,
        s,
      )
