-- ===== src/Orchestrator/Settle/TopUp.antt =====
-- offchain/orchestrator/settle.ts, `topUpsFor` as a whole.
use pumpling.Base.{
  ==_refl, >>=-ok, All, All-map, Bool, List, Once, Option, [], any, ap, append-nil, arith, dedup,
  dedup-Once, false, filter, has, if_elim, if◌then◌else◌, inl, inr, length, map, none, ok, refl,
  some, some_injective, subst, sym, true, ℕ, ◌&&◌, ◌++◌, ◌==◌, ◌∷◌, ◌≡◌, ◌⊎◌,
}
use pumpling.Orchestrator.Settle.{
  SettleEnv, TopUps, add_top_ups, basis_for, is_busy, is_queued, look_up_abandoned, pot_of,
  sends_of, spent_on, top_ups, top_ups_for,
}
use pumpling.Orchestrator.Settle.Added.{
  IsTopUp, add_sends-SameCoins, add_sends-sends, recipients_in, top_ups-Once, top_ups-each,
}
use pumpling.Orchestrator.Settle.Covered.{IsServed, everyone-IsServed}
use pumpling.Orchestrator.Settle.LookedUp.{IsUnsure, Looked, SameCoins, look_up-Looked}
use pumpling.Orchestrator.Shares.{shares_of, total_stake}
use pumpling.Orchestrator.State.{is_send}
use pumpling.Orchestrator.Types.{LotteryState, Mint, SendRecord, Wallet}
use pumpling.Scheduler.Batch.Keeps.{Returns, Returns-ok}

sends-listed :
    (p : SendRecord → Bool) (ss : List SendRecord)
    → All (λ s. any (is_send s.id) ss ≡ true) (filter p ss)
sends-listed p [] = tt
sends-listed p (s ∷ ss) =
    let rest =
      All-map (λ r. any (is_send r.id) ss ≡ true) (λ r. any (is_send r.id) (s ∷ ss) ≡ true)
        (filter p ss) (λ u h. ground (arith, h)) (sends-listed p ss) in
    if_elim (All (λ r. any (is_send r.id) (s ∷ ss) ≡ true)) (p s) _ _
      (λ _. (ground (arith, ==_refl s.id), rest)) (λ _. rest)

length-nil : (ss : List SendRecord) → (length ss == 0) ≡ true → ss ≡ []
length-nil [] h = refl
length-nil (s ∷ ss) h = ground (arith, h)

module _ (env : SettleEnv) (exact : Bool) (rounds : ℕ) (mint : Mint) where
  -- The deliveries that were added to those of the state after the look-up.
  pub record ToppedUp (state : LotteryState) (r : ℕ × LotteryState) : Type 0 where
    pub unsure : List Wallet
    pub looked : LotteryState
    pub looks :
        look_up_abandoned env.outcome_of env.clock_now (sends_of mint state) ([], state)
        ≡ ok (unsure, looked)
    pub added : List SendRecord
    pub sends : r.1.sends ≡ looked.sends ++ added
    pub count : r.0 ≡ length added
    pub same : SameCoins state r.1
    pub doubtful :
        All
          (λ s. IsUnsure env.outcome_of env.clock_now s → has s.recipient unsure ≡ true)
          (sends_of mint state)
    pub each :
        ((added ≡ [])
          × ((sends_of mint state ≡ []) ⊎ (basis_for env exact rounds mint unsure looked ≡ none)))
        ⊎ ((t : TopUps) × (basis_for env exact rounds mint unsure looked ≡ some t)
            × All (IsTopUp t mint rounds) added
            × ((w : Wallet)
                → has w (recipients_in t.sends) ≡ true
                → IsServed (record t { sends = t.sends ++ added }) w))
    pub once : Once (recipients_in added)
    pub apart :
        All
          (λ a.
            (has a.recipient unsure ≡ false)
            × (any (λ s. is_queued s && s.recipient == a.recipient) (sends_of mint looked) ≡ false))
          added

  -- Nothing to settle.
  none_sent-ToppedUp : (state : LotteryState) → sends_of mint state ≡ [] → ToppedUp state (0, state)
  unfolding look_up_abandoned
  none_sent-ToppedUp state e = record {
    unsure = [];
    looked = state;
    looks = ap (λ x. look_up_abandoned env.outcome_of env.clock_now x ([], state)) e;
    added = [];
    sends = sym (append-nil state.sends);
    count = refl;
    same = record { burns = refl; coins = refl };
    doubtful = subst (All _) (sym e) tt;
    each = inl (refl, inl e);
    once = tt;
    apart = tt;
  }

  basis_for-fields :
      (unsure : List Wallet) (state : LotteryState) (t : TopUps)
      → basis_for env exact rounds mint unsure state ≡ some t
      → (t.unsure ≡ unsure) × (t.sends ≡ sends_of mint state)
  unfolding basis_for
  basis_for-fields unsure state t e =
      by_stake (total_stake (shares_of state mint) == 0) (pot_of env exact mint state) e
    where
      of : ℕ → TopUps
      of raw = record {
        exact = exact;
        bought = raw;
        spent = spent_on mint state;
        unsure = unsure;
        shares = shares_of state mint;
        sends = sends_of mint state;
      }

      fields :
          (b : ℕ) → some (of b) ≡ some t → (t.unsure ≡ unsure) × (t.sends ≡ sends_of mint state)
      fields b e' = (
        ap (λ (x : TopUps). x.unsure) (sym (some_injective e')),
        ap (λ (x : TopUps). x.sends) (sym (some_injective e')),
      )

      by_bought :
          (b : ℕ) (zero_bought : Bool)
          → (if zero_bought then none else some (of b)) ≡ some t
          → (t.unsure ≡ unsure) × (t.sends ≡ sends_of mint state)
      by_bought b true e' = cc
      by_bought b false e' = fields b e'

      by_stake :
          (no_stake : Bool) (pot : Option ℕ)
          → (if no_stake
              then none
              else (elim pot [ none ↦ none | some raw ↦ if raw == 0 then none else some (of raw) ]))
            ≡ some t
          → (t.unsure ≡ unsure) × (t.sends ≡ sends_of mint state)
      by_stake true pot e' = cc
      by_stake false none e' = cc
      by_stake false (some b) e' = by_bought b (b == 0) e'

  idle-apart :
      (t : TopUps) (unsure : List Wallet) (ss added : List SendRecord)
      → (t.unsure ≡ unsure) × (t.sends ≡ ss)
      → All (IsTopUp t mint rounds) added
      → All
          (λ a.
            (has a.recipient unsure ≡ false)
            × (any (λ s. is_queued s && s.recipient == a.recipient) ss ≡ false))
          added
  unfolding is_busy
  idle-apart t unsure ss added (e, f) each =
      All-map _ _ added
        (λ a h.
          let idle =
            subst (λ ws. is_busy ws ss a.recipient ≡ false) e
              (subst (λ x. is_busy t.unsure x a.recipient ≡ false) f h.idle) in
          (ground (arith, idle), ground (arith, idle)))
        each

  add_top_ups-ToppedUp :
      (state : LotteryState) (r : List Wallet × LotteryState)
      → look_up_abandoned env.outcome_of env.clock_now (sends_of mint state) ([], state) ≡ ok r
      → Looked env.outcome_of env.clock_now state [] (sends_of mint state) r
      → (o : Option TopUps) → basis_for env exact rounds mint r.0 r.1 ≡ o
      → ToppedUp state (add_top_ups env exact rounds mint o r.1)
  unfolding add_top_ups
  add_top_ups-ToppedUp state r e h none f = record {
    unsure = r.0;
    looked = r.1;
    looks = e;
    added = [];
    sends = sym (append-nil r.1.sends);
    count = refl;
    same = h.state.same;
    doubtful = h.noted;
    each = inl (refl, inr f);
    once = tt;
    apart = tt;
  }
  add_top_ups-ToppedUp state r e h (some t) f =
      let wallets = dedup (map (λ (s : SendRecord). s.recipient) t.sends) in
      record {
        unsure = r.0;
        looked = r.1;
        looks = e;
        added = top_ups t mint rounds env.clock_now (length r.1.sends) wallets;
        sends = add_sends-sends _ r.1;
        count = refl;
        same = add_sends-SameCoins _ state r.1 h.state.same;
        doubtful = h.noted;
        each = inr (
          t,
          f,
          top_ups-each t mint rounds env.clock_now (length r.1.sends) wallets,
          λ w here_too. everyone-IsServed t mint rounds env.clock_now (length r.1.sends) w here_too,
        );
        apart =
            idle-apart t r.0 (sends_of mint r.1) _ (basis_for-fields r.0 r.1 t f)
              (top_ups-each t mint rounds env.clock_now (length r.1.sends) wallets);
        once =
            top_ups-Once t mint rounds env.clock_now (length r.1.sends) wallets
              (dedup-Once (map (λ (s : SendRecord). s.recipient) t.sends));
      }

  pub top_ups_for-ToppedUp :
      (state : LotteryState) → Returns (ToppedUp state) (top_ups_for env exact rounds mint state)
  unfolding top_ups_for
  top_ups_for-ToppedUp state =
      if_elim (Returns (ToppedUp state)) (length (sends_of mint state) == 0) _ _
        (λ empty.
          Returns-ok _ _ (none_sent-ToppedUp state (length-nil (sends_of mint state) empty)))
        (λ _. record {
          value = _;
          returns = >>=-ok _ _ looked.value looked.returns;
          fits = add_top_ups-ToppedUp state looked.value looked.returns looked.fits _ refl;
        })
    where
      looked :
          Returns
            (Looked env.outcome_of env.clock_now state [] (sends_of mint state))
            (look_up_abandoned env.outcome_of env.clock_now (sends_of mint state) ([], state))
      looked =
          look_up-Looked env.outcome_of env.clock_now state (sends_of mint state) [] state
            (sends-listed _ state.sends)
            (record { same = record { burns = refl; coins = refl }; ids = λ j. refl })
