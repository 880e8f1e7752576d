-- ===== src/Orchestrator/PurchaseTokens/Grounded.antt =====
-- What `refreshPurchaseTokens` (offchain/orchestrator/purchaseTokens.ts) puts on record, and on what
-- grounds.
use pumpling.Base.{
  ==_iff, All, All-has_self, All-map, Bool, Bool-cases, List, Memᴰ, Option, [], arith, false, has,
  inl, inr, none, refl, some, subst, sym, true, ℕ, ◌++◌, ◌+◌, ◌<◌, ◌==◌, ◌||◌, ◌∷◌, ◌≡◌, ◌⊎◌,
}
use pumpling.Orchestrator.PurchaseTokens.{BatchLoader, PendingAttempt, tokens_bought}
use pumpling.Orchestrator.PurchaseTokens.Refresh.{
  KeeperEffect, TokenDelta, Wanted, add_found, attempts_for, collect_wanted, find_all, found_of,
  if_final, not_on_chain, on_chain, or_nothing, refresh_purchase_tokens, set_key, signed_at,
  want_all, want_pending,
}
use pumpling.Orchestrator.State.{lookup, record_purchase_tokens}
use pumpling.Orchestrator.Types.{LotteryState, Mint, Signature, Time}

-- A pair is set down for the key that it was set down for.
All-set_key :
    (P : ℕ → ℕ → Type 0) (key value : ℕ) (xs : List (ℕ × ℕ))
    → P key value
    → All (λ x. P x.0 x.1) xs
    → All (λ x. P x.0 x.1) (set_key key value xs)
unfolding set_key
All-set_key P key value [] first rest = (first, tt)
All-set_key P key value ((k, v) ∷ xs) first rest = elim (Bool-cases (k == key)) [
  | inl e ↦ rw e (subst (λ q. P q value) (sym ((==_iff k key).0 e)) first, rest.1)
  | inr e ↦ rw e (rest.0, All-set_key P key value xs first rest.1)
]

lookup-All :
    (P : ℕ → ℕ → Type 0) (key value : ℕ) (xs : List (ℕ × ℕ))
    → lookup key xs ≡ some value
    → All (λ x. P x.0 x.1) xs
    → P key value
lookup-All P key value [] e h = cc e
lookup-All P key value ((k, v) ∷ xs) e h = elim (Bool-cases (k == key)) [
  | inl same ↦
      let v_is : v ≡ value = ground (arith, e, same) in
      subst (λ (q : ℕ). P q value) ((==_iff k key).0 same) (subst (λ (u : ℕ). P k u) v_is h.0)
  | inr other ↦ lookup-All P key value xs (ground (arith, e, other)) h.1
]

-- An attempt of the list with this signature.
pub record IsAttempt (s : Signature) (at : Time) (attempts : List PendingAttempt) : Type 0 where
  pub attempt : PendingAttempt
  pub member : Memᴰ attempt attempts
  pub signed : attempt.signature ≡ s
  pub time : at ≡ attempt.updated_at

IsAttempt-later :
    (s : Signature) (at : Time) (a : PendingAttempt) (as' : List PendingAttempt)
    → IsAttempt s at as'
    → IsAttempt s at (a ∷ as')
IsAttempt-later s at a as' h = record {
  attempt = h.attempt;
  member = Memᴰ.tail h.member;
  signed = h.signed;
  time = h.time;
}

signed_at-IsAttempt :
    (now : Time) (s : Signature) (as' : List PendingAttempt)
    → (signed_at now as' s ≡ now) ⊎ IsAttempt s (signed_at now as' s) as'
signed_at-IsAttempt now s [] = inl refl
signed_at-IsAttempt now s (a ∷ as') = elim (Bool-cases (a.signature == s)) [
  | inl e ↦ inr (record {
    attempt = a;
    member = Memᴰ.head refl;
    signed = (==_iff a.signature s).0 e;
    time = ground (arith, e);
  })
  | inr e ↦
      let skip : signed_at now (a ∷ as') s ≡ signed_at now as' s = ground (arith, e) in
      subst (λ (u : Time). (u ≡ now) ⊎ IsAttempt s u (a ∷ as')) (sym skip)
        (elim (signed_at-IsAttempt now s as') [
          | inl h ↦ inl h
          | inr h ↦ inr (IsAttempt-later s _ a as' h)
        ])
]

module _ (state : LotteryState) (load : BatchLoader) (mints : List Mint) (now : Time) where
  -- The coin is one of those that are refreshed, and the transaction is one of its purchases or of
  -- the earlier attempts at them that is not on record.
  abbrev pub IsUnread : Signature → Mint → Type 0
  IsUnread s mint =
      (has mint mints ≡ true)
      × ((has s (tokens_bought state mint load).unread
            || has s (tokens_bought state mint load).unread_pending)
          ≡ true)

  -- The time is that of an earlier attempt with the signature at a purchase of one of the coins.
  abbrev pub IsTried : Signature → Time → Type 0
  IsTried s at =
      (mint : Mint) × (has mint mints ≡ true)
      × (has s (tokens_bought state mint load).unread_pending ≡ true)
      × IsAttempt s at (attempts_for state load mint)

  abbrev IsTimed : Signature → Time → Type 0
  IsTimed s at = (at ≡ now) ⊎ IsTried s at

  abbrev AllAsked : Wanted → Type 0
  AllAsked w = All (λ x. IsUnread x.0 x.1) w.wanted × All (λ x. IsTimed x.0 x.1) w.attempts

  want_all-asked :
      (mint : Mint) (ss : List Signature) (w : Wanted)
      → All (λ s. IsUnread s mint) ss
      → AllAsked w
      → AllAsked (want_all mint ss w)
  unfolding want_all
  want_all-asked mint [] w h asked = asked
  want_all-asked mint (s ∷ ss) w h asked =
      want_all-asked mint ss _ h.1 (All-set_key IsUnread s mint w.wanted h.0 asked.0, asked.1)

  want_pending-asked :
      (mint : Mint) (ss : List Signature) (w : Wanted)
      → has mint mints ≡ true
      → All
          (λ s. IsUnread s mint × (has s (tokens_bought state mint load).unread_pending ≡ true))
          ss
      → AllAsked w
      → AllAsked (want_pending now (attempts_for state load mint) mint ss w)
  unfolding want_pending
  want_pending-asked mint [] w known h asked = asked
  want_pending-asked mint (s ∷ ss) w known h asked =
      let timed : IsTimed s (signed_at now (attempts_for state load mint) s) =
        elim (signed_at-IsAttempt now s (attempts_for state load mint)) [
          | inl e ↦ inl e
          | inr a ↦ inr (mint, known, h.0.1, a)
        ] in
      want_pending-asked mint ss _ known h.1 (
        All-set_key IsUnread s mint w.wanted h.0.0 asked.0,
        All-set_key IsTimed s _ w.attempts timed asked.1,
      )

  collect_wanted-asked :
      (ms : List Mint) (w : Wanted)
      → All (λ m. has m mints ≡ true) ms
      → AllAsked w
      → AllAsked (collect_wanted now state load ms w)
  unfolding collect_wanted
  collect_wanted-asked [] w h asked = asked
  collect_wanted-asked (mint ∷ ms) w h asked =
      let bought = tokens_bought state mint load in
      collect_wanted-asked ms _ h.1 (
        want_pending-asked mint bought.unread_pending _ h.0
          (All-map _ _ bought.unread_pending (λ s m. ((h.0, or_right _ m), m))
            (All-has_self bought.unread_pending))
          (want_all-asked mint bought.unread w
            (All-map _ _ bought.unread (λ s m. (h.0, or_left _ m)) (All-has_self bought.unread))
            asked))
    where
      or_left : {a : Bool} (b : Bool) → a ≡ true → (a || b) ≡ true
      or_left b e = cc e

      or_right : {b : Bool} (a : Bool) → b ≡ true → (a || b) ≡ true
      or_right true e = refl
      or_right false e = e

module _ (effects : Signature → Option KeeperEffect) (now : Time) (mints : List Mint)
    (load : BatchLoader) (state : LotteryState) where
  -- What a transaction is taken to have brought, and on what grounds: it is on chain and gained so
  -- much of a coin at whose purchase it is, or it is not on chain and is an earlier attempt of long
  -- enough ago.
  pub record IsGrounded (s : Signature) (n : ℕ) : Type 0 where
    pub effect : KeeperEffect
    pub answered : effects s ≡ some effect
    pub grounds :
        ((m : Mint) × IsUnread state load mints now s m
          × (deltas : Mint → TokenDelta) × (effect ≡ on_chain deltas)
          × (n ≡ or_nothing (deltas m)))
        ⊎ ((at : Time) × IsTried state load mints now s at
            × (effect ≡ not_on_chain)
            × (n ≡ 0)
            × (at + 300000 < now))

  if_final-some :
      (s : Signature) (signed : Option Time) (n : ℕ)
      → ((at : Time) → signed ≡ some at → IsTimed state load mints now s at)
      → if_final now signed ≡ some n
      → (at : Time) × IsTried state load mints now s at × (n ≡ 0) × (at + 300000 < now)
  if_final-some s none n timed e = cc
  if_final-some s (some at) n timed e = elim (timed at refl) [
    | inl is_now ↦ absurd (ground (arith, e, is_now))
    | inr tried ↦ (at, tried, ground (arith, e), ground (arith, e))
  ]

  IsGrounded-found :
      (s : Signature) (signed : Option Time) (mint : Mint) (o : Option KeeperEffect) (n : ℕ)
      → IsUnread state load mints now s mint
      → ((at : Time) → signed ≡ some at → IsTimed state load mints now s at)
      → effects s ≡ o
      → found_of now signed mint o ≡ some n
      → IsGrounded s n
  IsGrounded-found s signed mint none n unread timed h e = cc
  IsGrounded-found s signed mint (some not_on_chain) n unread timed h e =
      let (at, tried, zero_found, late) = if_final-some s signed n timed e in
      record {
        effect = not_on_chain;
        answered = h;
        grounds = inr (at, tried, refl, zero_found, late);
      }
  IsGrounded-found s signed mint (some (on_chain deltas)) n unread timed h e = record {
    effect = on_chain deltas;
    answered = h;
    grounds = inl (mint, unread, deltas, refl, cc);
  }

  abbrev AllGrounded : List (Signature × ℕ) → Type 0
  AllGrounded = All (λ x. IsGrounded x.0 x.1)

  AllGrounded-add :
      (s : Signature) (o : Option ℕ) (found : List (Signature × ℕ))
      → ((k : ℕ) → o ≡ some k → IsGrounded s k)
      → AllGrounded found
      → AllGrounded (add_found s o found)
  AllGrounded-add s none found first rest = rest
  AllGrounded-add s (some k) found first rest = (first k refl, rest)

  AllGrounded-find_all :
      (attempts : List (Signature × Time)) (wanted : List (Signature × Mint))
      → All (λ x. IsTimed state load mints now x.0 x.1) attempts
      → All (λ x. IsUnread state load mints now x.0 x.1) wanted
      → AllGrounded (find_all effects now attempts wanted)
  unfolding find_all
  AllGrounded-find_all attempts [] timed unread = tt
  AllGrounded-find_all attempts ((s, mint) ∷ wanted) timed unread =
      AllGrounded-add s (found_of now (lookup s attempts) mint (effects s))
        (find_all effects now attempts wanted)
        (λ k h.
          IsGrounded-found s (lookup s attempts) mint (effects s) k unread.0
            (λ at e. lookup-All (IsTimed state load mints now) s at attempts e timed) refl h)
        (AllGrounded-find_all attempts wanted timed unread.1)

  lookup-last :
      (t s : Signature) (raw n : ℕ) (xs : List (Signature × ℕ))
      → lookup t (xs ++ ((s, raw) ∷ [])) ≡ some n
      → (lookup t xs ≡ some n) ⊎ ((s ≡ t) × (raw ≡ n))
  lookup-last t s raw n [] e = elim (Bool-cases (s == t)) [
    | inl same ↦ inr ((==_iff s t).0 same, ground (arith, e, same))
    | inr other ↦ inl (ground (arith, e, other))
  ]
  lookup-last t s raw n ((r, v) ∷ xs) e = elim (Bool-cases (r == t)) [
    | inl same ↦ inl (ground (arith, e, same))
    | inr other ↦ elim (lookup-last t s raw n xs (ground (arith, e, other))) [
      | inl old ↦ inl (rw other old)
      | inr new ↦ inr new
    ]
  ]

  IsGrounded-entry :
      (t s : Signature) (raw n : ℕ) (o : Option ℕ) (xs : List (Signature × ℕ))
      → IsGrounded s raw
      → lookup t (elim o [ none ↦ xs ++ ((s, raw) ∷ []) | some _ ↦ xs ]) ≡ some n
      → (lookup t xs ≡ some n) ⊎ IsGrounded t n
  IsGrounded-entry t s raw n (some v) xs g e = inl e
  IsGrounded-entry t s raw n none xs g e = elim (lookup-last t s raw n xs e) [
    | inl old ↦ inl old
    | inr (same, value) ↦
        inr (subst (λ (q : Signature). IsGrounded q n) same (subst (IsGrounded s) value g))
  ]

  IsGrounded-records :
      (found : List (Signature × ℕ)) (old_state : LotteryState) (t : Signature) (n : ℕ)
      → AllGrounded found
      → lookup t (record_purchase_tokens found old_state).purchase_tokens ≡ some n
      → (lookup t old_state.purchase_tokens ≡ some n) ⊎ IsGrounded t n
  unfolding record_purchase_tokens
  IsGrounded-records [] old_state t n g e = inl e
  IsGrounded-records ((s, raw) ∷ found) old_state t n g e =
      elim (IsGrounded-records found _ t n g.1 e) [
        | inl old ↦
            IsGrounded-entry t s raw n (lookup s old_state.purchase_tokens)
              old_state.purchase_tokens g.0 old
        | inr new ↦ inr new
      ]

  -- What a refresh leaves on record of a transaction was on record before, or stands on the node's
  -- answer about a transaction of a purchase of one of the given coins: the gain of that coin by a
  -- transaction on chain, or nothing for an earlier attempt that is not on chain and was noted more
  -- than five minutes ago.
  pub refresh_purchase_tokens-IsGrounded :
      (t : Signature) (n : ℕ)
      → lookup t (refresh_purchase_tokens effects now mints load state).purchase_tokens ≡ some n
      → (lookup t state.purchase_tokens ≡ some n) ⊎ IsGrounded t n
  unfolding refresh_purchase_tokens
  refresh_purchase_tokens-IsGrounded t n e =
      let none_yet : Wanted = record { wanted = []; attempts = [] } in
      let w = collect_wanted now state load mints none_yet in
      let asked =
        collect_wanted-asked state load mints now mints none_yet (All-has_self mints) (tt, tt) in
      IsGrounded-records (find_all effects now w.attempts w.wanted) state t n
        (AllGrounded-find_all w.attempts w.wanted asked.1 asked.0) e
