-- ===== src/Orchestrator/Settle/Covered.antt =====
-- offchain/orchestrator/settle.ts: nobody who is short is left without a top-up.
use pumpling.Base.{
  ==_iff, All, Bool, Bool-cases, List, [], any, any-append, any-find?, ap, arith, dedup, false,
  find?, has, has-dedup, if_elim, inl, inr, ltb, not, refl, subst, sym, true, ℕ, ◌&&◌, ◌*◌, ◌++◌,
  ◌+◌, ◌-◌, ◌<◌, ◌==◌, ◌||◌, ◌∙◌, ◌∷◌, ◌≡◌, ◌≤◌, ◌⊎◌,
}
use pumpling.Orchestrator.Settle.{
  TopUps, delivered_by, delivered_to, is_busy, is_queued, is_short, not_worth, sampled,
  top_up_target, top_ups,
}
use pumpling.Orchestrator.Settle.Added.{IsTopUp, recipients_in, top_ups-each}
use pumpling.Orchestrator.State.{has_status}
use pumpling.Orchestrator.Types.{Mint, SendRecord, SendStatus, Time, Wallet}

-- A queued delivery for this wallet.
abbrev pub queued_for : Wallet → SendRecord → Bool
queued_for w s = is_queued s && s.recipient == w

-- Nothing more is due to a wallet: a delivery is queued for it, one that was given up may still have
-- landed, it got its target, or what it is short of cost less than 10000 lamports at the average
-- price of the purchases.
abbrev pub IsServed : TopUps → Wallet → Type 0
IsServed t w =
    (any (queued_for w) t.sends ≡ true)
    ⊎ ((has w t.unsure ≡ true)
        ⊎ ((top_up_target t.exact t.bought t.shares w ≤ delivered_to t.exact w t.sends)
            ⊎ ((0 < t.spent)
                × ((top_up_target t.exact t.bought t.shares w - delivered_to t.exact w t.sends)
                      * t.spent
                    < 10000 * t.bought))))

not_short-IsServed : (t : TopUps) (w : Wallet) → is_short t w ≡ false → IsServed t w
unfolding is_short is_busy
not_short-IsServed t w h =
    let got = delivered_to t.exact w t.sends in
    let target = top_up_target t.exact t.bought t.shares w in
    elim (Bool-cases (any (queued_for w) t.sends)) [
      | inl e ↦ inl e
      | inr e ↦ elim (Bool-cases (has w t.unsure)) [
        | inl f ↦ inr (inl f)
        | inr f ↦ elim (Bool-cases (ltb got target)) [
          | inr g ↦ inr (inr (inl (ground arith)))
          | inl g ↦ inr (inr (inr (ground arith)))
        ]
      ]
    ]

any-append_right {ℓ} :
    {A : Type ℓ} (p : A → Bool) (xs ys : List A) → any p ys ≡ true → any p (xs ++ ys) ≡ true
any-append_right p [] ys h = h
any-append_right p (x ∷ xs) ys h = ground (arith, any-append_right p xs ys h)

delivered_to-append :
    (exact : Bool) (w : Wallet) (xs ys : List SendRecord)
    → delivered_to exact w (xs ++ ys) ≡ delivered_to exact w xs + delivered_to exact w ys
unfolding delivered_to
delivered_to-append exact w [] ys = omega arith
delivered_to-append exact w (x ∷ xs) ys = ground (arith, delivered_to-append exact w xs ys)

pending-delivers :
    (exact : Bool) (s : SendRecord)
    → has_status SendStatus.pending s ≡ true
    → delivered_by exact s ≡ 0
unfolding delivered_by
pending-delivers exact s h = ground (arith, h)

module _ (t : TopUps) (mint : Mint) (round : ℕ) where
  top_ups-deliver :
      (w : Wallet) (added : List SendRecord)
      → All (IsTopUp t mint round) added
      → delivered_to t.exact w added ≡ 0
  unfolding delivered_to
  top_ups-deliver w [] h = refl
  top_ups-deliver w (s ∷ ss) h =
      ground (arith, top_ups-deliver w ss h.1, pending-delivers t.exact s h.0.queued)

  rearranged :
      (busy more enough worth : Bool)
      → (not (busy || more) && enough && worth) ≡ ((not busy && enough && worth) && not more)
  rearranged true more enough worth = refl
  rearranged false true true true = refl
  rearranged false true true false = refl
  rearranged false true false worth = refl
  rearranged false false true true = refl
  rearranged false false true false = refl
  rearranged false false false worth = refl

  -- With the added deliveries a wallet is short if it was and got none of them.
  is_short-added :
      (w : Wallet) (added : List SendRecord)
      → All (IsTopUp t mint round) added
      → is_short (record t { sends = t.sends ++ added }) w
        ≡ (is_short t w && not (any (queued_for w) added))
  unfolding is_short is_busy
  is_short-added w added h =
      let got = delivered_to t.exact w t.sends in
      let busy = is_busy t.unsure t.sends w in
      let more = any (queued_for w) added in
      ap (λ (b : Bool). test b (delivered_to t.exact w (t.sends ++ added)))
        (ap (λ (b : Bool). b || has w t.unsure) (any-append (queued_for w) t.sends added)
          ∙ or_swap (any (queued_for w) t.sends) more (has w t.unsure))
      ∙ (ap (λ (n : ℕ). test (busy || more) n)
            (delivered_to-append t.exact w t.sends added ∙ omega (arith, top_ups-deliver w added h))
          ∙ rearranged busy more (ltb got target) (not (not_worth t.spent t.bought (target - got))))
    where
      target : ℕ
      target = top_up_target t.exact t.bought t.shares w

      test : Bool → ℕ → Bool
      test busy got = not busy && ltb got target && not (not_worth t.spent t.bought (target - got))

      or_swap : (a b c : Bool) → ((a || b) || c) ≡ ((a || c) || b)
      or_swap true b c = refl
      or_swap false true true = refl
      or_swap false true false = refl
      or_swap false false true = refl
      or_swap false false false = refl

has-recipients :
    (w : Wallet) (ss : List SendRecord) → has w (recipients_in ss) ≡ any (λ s. s.recipient == w) ss
has-recipients w [] = refl
has-recipients w (s ∷ ss) = ap (λ (b : Bool). (s.recipient == w) || b) (has-recipients w ss)

module _ (t : TopUps) (mint : Mint) (round : ℕ) (now : Time) where
  module _ (w : Wallet) (short : is_short t w ≡ true)
      (there : any (λ s. s.recipient == w) t.sends ≡ true) where
    covered-here :
        (last : ℕ) (ws : List Wallet)
        → any (queued_for w) (top_ups t mint round now last (w ∷ ws)) ≡ true
    unfolding top_ups
    covered-here last ws =
        let (sample, found, is) = any-find? (λ (s : SendRecord). s.recipient == w) t.sends there in
        rw (top_ups, short, found) (ground (arith, is))

    covered :
        (last : ℕ) (ws : List Wallet)
        → has w ws ≡ true
        → any (queued_for w) (top_ups t mint round now last ws) ≡ true
    unfolding top_ups
    covered last [] h = cc h
    covered last (v ∷ ws) h = elim (Bool-cases (v == w)) [
      | inl e ↦
          subst (λ u. any (queued_for w) (top_ups t mint round now last (u ∷ ws)) ≡ true)
            (sym ((==_iff v w).0 e)) (covered-here last ws)
      | inr e ↦
          if_elim (λ ss. any (queued_for w) ss ≡ true) (is_short t v) _ _
            (λ _.
              any-append_right (queued_for w)
                (sampled mint round now (last + 1) (find? (λ s. s.recipient == v) t.sends))
                (top_ups t mint round now (last + 1) ws)
                (covered (last + 1) ws (ground (arith, h, e))))
            (λ _. covered last ws (ground (arith, h, e)))
    ]

  -- A second pass over the same numbers would add nothing.
  nobody-short :
      (last : ℕ) (w : Wallet)
      → has w (recipients_in t.sends) ≡ true
      → is_short
          (record t {
            sends = t.sends ++ top_ups t mint round now last (dedup (recipients_in t.sends));
          })
          w
        ≡ false
  nobody-short last w here_too =
      let ws = dedup (recipients_in t.sends) in
      is_short-added t mint round w _ (top_ups-each t mint round now last ws)
      ∙ by_short (is_short t w) _ (λ short.
        covered w short (sym (has-recipients w t.sends) ∙ here_too) last ws
          (has-dedup w (recipients_in t.sends) ∙ here_too))
    where
      by_short : (a b : Bool) → (a ≡ true → b ≡ true) → (a && not b) ≡ false
      by_short true true h = refl
      by_short true false h = sym (h refl)
      by_short false b h = refl

  pub everyone-IsServed :
      (last : ℕ) (w : Wallet)
      → has w (recipients_in t.sends) ≡ true
      → IsServed
          (record t {
            sends = t.sends ++ top_ups t mint round now last (dedup (recipients_in t.sends));
          })
          w
  everyone-IsServed last w h = not_short-IsServed _ w (nobody-short last w h)
