-- ===== src/Orchestrator/Burns/Writes.antt =====
-- What `addBurned` and `updateBurn` (offchain/orchestrator/state.ts) leave, where the coin and the
-- burn have records.
use pumpling.Base.{
  >>=-ok, List, [], any, any-find?, any-update, arith, burn_not_found, find?, if◌then◌else◌, ok,
  refl, some, token_buy_not_found, true, update, ℕ, ◌+◌, ◌==◌, ◌∙◌, ◌∷◌, ◌≡◌,
}
use pumpling.Orchestrator.Burns.{burned_of, burned_so_far}
use pumpling.Orchestrator.State.{
  add_burned, assign-found, is_burn, is_mint, or_zero, update_burn, update_summary,
}
use pumpling.Orchestrator.Types.{BurnRecord, LotteryState, Mint, Time, TokenBuyRecord}

-- The coin has a record.
abbrev pub HasToken : Mint → LotteryState → Type 0
HasToken mint state = any (is_mint mint) state.token_buys ≡ true

abbrev pub gain : Mint → Mint → ℕ → ℕ
gain m mint raw = if m == mint then raw else 0

pub burned_in-update :
    (m mint : Mint) (change : TokenBuyRecord → TokenBuyRecord) (ts : List TokenBuyRecord)
    (t : TokenBuyRecord) (raw : ℕ)
    → ((t : TokenBuyRecord) → (change t).mint ≡ t.mint)
    → ((t : TokenBuyRecord) → or_zero (change t).burned_raw ≡ or_zero t.burned_raw + raw)
    → find? (is_mint mint) ts ≡ some t
    → burned_of (find? (is_mint m) (update (is_mint mint) change ts))
      ≡ burned_of (find? (is_mint m) ts) + gain m mint raw
burned_in-update m mint change [] t raw same grows f = cc
burned_in-update m mint change (u ∷ ts) t raw same grows f =
    ground (arith, same u, grows u, burned_in-update m mint change ts t raw same grows)

-- `addBurned` on a coin that has a record: it returns, adds to that coin's total alone, and leaves
-- the burns.
pub add_burned_lem :
    (mint : Mint) (raw : ℕ) (now : Time) (state : LotteryState)
    → HasToken mint state
    → (s : LotteryState) × (add_burned mint raw now state ≡ ok s)
      × (s.burns ≡ state.burns)
      × ((m : Mint) → burned_so_far m s ≡ burned_so_far m state + gain m mint raw)
      × HasToken mint s
unfolding add_burned
add_burned_lem mint raw now state h =
    let (t, found, _) = any-find? (is_mint mint) state.token_buys h in
    let change = λ (t : TokenBuyRecord). record t {
      burned_raw = some (or_zero t.burned_raw + raw);
      updated_at = now;
    } in
    let s : LotteryState =
      update_summary
        (record state { token_buys = update (is_mint mint) change state.token_buys }) in
    (
      s,
      >>=-ok _ (λ buys. ok (update_summary (record state { token_buys = buys }))) _
          (assign-found (is_mint mint) change token_buy_not_found state.token_buys t found),
      refl,
      λ m. burned_in-update m mint change state.token_buys t raw (λ _. refl) (λ _. refl) found,
      any-update (is_mint mint) (is_mint mint) change state.token_buys (λ _. refl) ∙ h,
    )

-- `updateBurn` on an id that finds a record.
pub update_burn_lem :
    (id : ℕ) (change : BurnRecord → BurnRecord) (now : Time) (state : LotteryState) (b : BurnRecord)
    → find? (is_burn id) state.burns ≡ some b
    → update_burn id change now state
      ≡ ok (record state {
        burns = update (is_burn id) (λ b. record (change b) { updated_at = now }) state.burns;
      })
unfolding update_burn
update_burn_lem id change now state b found =
    >>=-ok _ (λ burns. ok (record state { burns = burns })) _
      (assign-found (is_burn id) _ burn_not_found state.burns b found)
