-- ===== src/Orchestrator/Settle/Added.antt =====
-- offchain/orchestrator/settle.ts: who gets a top-up, and how often.
use pumpling.Base.{
  ==_iff, All, All-append, Bool, List, Once, Option, [], ap, append-nil, arith, false, find?,
  find?-holds, has, if_elim, if◌then◌else◌, inl, inr, map, none, refl, some, subst, sym, true, ℕ,
  ◌++◌, ◌+◌, ◌<◌, ◌==◌, ◌∷◌, ◌≡◌, ◌⊎◌,
}
use pumpling.Orchestrator.Settle.{
  TopUps, delivered_to, is_busy, is_short, sampled, top_up_record, top_up_target, top_ups,
}
use pumpling.Orchestrator.Settle.LookedUp.{SameCoins}
use pumpling.Orchestrator.State.{add_sends, has_status, update_summary}
use pumpling.Orchestrator.Types.{LotteryState, Mint, SendRecord, SendStatus, Time, Wallet}

pub add_sends-sends :
    (added : List SendRecord) (state : LotteryState)
    → (add_sends added state).sends ≡ state.sends ++ added
unfolding add_sends update_summary
add_sends-sends [] state = sym (append-nil state.sends)
add_sends-sends (s ∷ ss) state = refl

pub add_sends-SameCoins :
    (added : List SendRecord) (base state : LotteryState)
    → SameCoins base state
    → SameCoins base (add_sends added state)
unfolding add_sends update_summary
add_sends-SameCoins [] base state h = h
add_sends-SameCoins (s ∷ ss) base state h = record { burns = h.burns; coins = h.coins }

-- A queued top-up of the coin for a wallet that is short.
pub record IsTopUp (t : TopUps) (mint : Mint) (round : ℕ) (s : SendRecord) : Type 0 where
  pub coin : s.mint ≡ mint
  pub queued : has_status SendStatus.pending s ≡ true
  pub sent_in : s.round ≡ round
  pub idle : is_busy t.unsure t.sends s.recipient ≡ false
  pub short :
      delivered_to t.exact s.recipient t.sends < top_up_target t.exact t.bought t.shares s.recipient

module _ (t : TopUps) (mint : Mint) (round : ℕ) (now : Time) where
  record-IsTopUp :
      (id : ℕ) (w : Wallet) (sample : SendRecord)
      → is_short t w ≡ true
      → sample.recipient ≡ w
      → IsTopUp t mint round (top_up_record mint round now id sample)
  unfolding is_short
  record-IsTopUp id w sample h e =
      let is = subst (λ v. is_short t v ≡ true) (sym e) h in
      record {
        coin = refl;
        queued = refl;
        sent_in = refl;
        idle = ground (arith, is);
        short = ground (arith, is);
      }

  pub top_ups-each :
      (last : ℕ) (ws : List Wallet) → All (IsTopUp t mint round) (top_ups t mint round now last ws)
  unfolding top_ups
  top_ups-each last [] = tt
  top_ups-each last (w ∷ ws) =
      if_elim (All (IsTopUp t mint round)) (is_short t w) _ _
        (λ short.
          All-append (IsTopUp t mint round) _ _
            (of_sample short (find? (λ s. s.recipient == w) t.sends) refl)
            (top_ups-each (last + 1) ws))
        (λ _. top_ups-each last ws)
    where
      of_sample :
          is_short t w ≡ true
          → (o : Option SendRecord) → find? (λ s. s.recipient == w) t.sends ≡ o
          → All (IsTopUp t mint round) (sampled mint round now (last + 1) o)
      of_sample short none e = tt
      of_sample short (some sample) e = (
        record-IsTopUp (last + 1) w sample short (
            (==_iff sample.recipient w).0
              (find?-holds (λ (s : SendRecord). s.recipient == w) t.sends sample e)),
        tt,
      )

abbrev pub recipients_in : List SendRecord → List Wallet
recipients_in = map (λ s. s.recipient)

module _ (t : TopUps) (mint : Mint) (round : ℕ) (now : Time) where
  abbrev wallets_from : ℕ → List Wallet → List Wallet
  wallets_from last ws = recipients_in (top_ups t mint round now last ws)

  -- A wallet in turn adds itself or nothing.
  top_ups-turn :
      (last : ℕ) (w : Wallet) (ws : List Wallet)
      → (next : ℕ) × ((wallets_from last (w ∷ ws) ≡ w ∷ wallets_from next ws)
          ⊎ (wallets_from last (w ∷ ws) ≡ wallets_from next ws))
  unfolding top_ups
  top_ups-turn last w ws = by_test (is_short t w)
    where
      of_sample :
          (o : Option SendRecord)
          → find? (λ s. s.recipient == w) t.sends ≡ o
          → (recipients_in
                (sampled mint round now (last + 1) o ++ top_ups t mint round now (last + 1) ws)
              ≡ w ∷ wallets_from (last + 1) ws)
            ⊎ (recipients_in
                  (sampled mint round now (last + 1) o ++ top_ups t mint round now (last + 1) ws)
                ≡ wallets_from (last + 1) ws)
      of_sample none e = inr refl
      of_sample (some sample) e = inl (
          ap (λ v. v ∷ wallets_from (last + 1) ws)
            ((==_iff sample.recipient w).0
              (find?-holds (λ (s : SendRecord). s.recipient == w) t.sends sample e)))

      by_test :
          (b : Bool)
          → (next : ℕ) × ((recipients_in (
                  if b
                  then sampled mint round now (last + 1) (find? (λ s. s.recipient == w) t.sends)
                    ++ top_ups t mint round now (last + 1) ws
                  else top_ups t mint round now last ws)
                ≡ w ∷ wallets_from next ws)
              ⊎ (recipients_in (
                    if b
                    then sampled mint round now (last + 1) (find? (λ s. s.recipient == w) t.sends)
                      ++ top_ups t mint round now (last + 1) ws
                    else top_ups t mint round now last ws)
                  ≡ wallets_from next ws))
      by_test true = (last + 1, of_sample (find? (λ s. s.recipient == w) t.sends) refl)
      by_test false = (last, inr refl)

  top_ups-others :
      (r : Wallet) (last : ℕ) (ws : List Wallet)
      → has r ws ≡ false
      → has r (wallets_from last ws) ≡ false
  unfolding top_ups
  top_ups-others r last [] h = refl
  top_ups-others r last (w ∷ ws) h =
      let (later, turn) = top_ups-turn last w ws in
      let rest = top_ups-others r later ws (ground (arith, h)) in
      elim turn [ inl e ↦ rw e (ground (arith, h, rest)) | inr e ↦ rw e rest ]

  pub top_ups-Once : (last : ℕ) (ws : List Wallet) → Once ws → Once (wallets_from last ws)
  unfolding top_ups
  top_ups-Once last [] h = tt
  top_ups-Once last (w ∷ ws) h =
      let (later, turn) = top_ups-turn last w ws in
      elim turn [
        | inl e ↦ rw e (top_ups-others w later ws h.0, top_ups-Once later ws h.1)
        | inr e ↦ rw e (top_ups-Once later ws h.1)
      ]
