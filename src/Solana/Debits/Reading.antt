-- ===== src/Solana/Debits/Reading.antt =====
-- offchain/solana/debits.ts: reading in batches against reading each transaction by itself.
use pumpling.Base.{
  ==_iff, Bool, List, Option, [], ap, arith, dedup, drop, false, filter, has, has-dedup,
  if◌then◌else◌, length, max, none, not, refl, some, subst, suc, sym, take, true, zero, ℕ, ◌&&◌,
  ◌-◌, ◌==◌, ◌||◌, ◌∙◌, ◌∷◌, ◌≡◌, ◌≤◌,
}
use pumpling.Orchestrator.Types.{Signature}
use pumpling.Solana.Debits.{
  AnswerRow, KeeperEffect, Key, RawAnswer, RpcBatch, asked_twice, by_id, effect_from, map_get,
  read_chunks, read_keeper_effects, row_effect, set_effect, size_or_default, take_answers,
  take_batch,
}
use pumpling.Solana.Debits.Deltas.{map_get-set}

has-take-drop : (s n : ℕ) (xs : List ℕ) → (has s (take n xs) || has s (drop n xs)) ≡ has s xs
has-take-drop s zero xs = refl
has-take-drop s (suc n) [] = refl
has-take-drop s (suc n) (x ∷ xs) = ground (arith, has-take-drop s n xs)

length-drop : (n : ℕ) (xs : List ℕ) → length (drop n xs) ≤ length xs - n
length-drop zero xs = omega arith
length-drop (suc n) [] = omega arith
length-drop (suc n) (x ∷ xs) = omega (arith, length-drop n xs)

module _ (chain : Signature → RawAnswer) (keeper : Key) where
  abbrev pub Effects : Type 0
  Effects = List (Signature × KeeperEffect)

  -- What the chain says of one transaction.
  abbrev pub effect_on_chain : Signature → Option KeeperEffect
  effect_on_chain s = effect_from (chain s) keeper

  abbrev Known : (Signature → Bool) → Effects → Type 0
  Known asked m = (s : Signature) → map_get s m ≡ (if asked s then effect_on_chain s else none)

  -- Each call of a chunk has a row without an error, with the chain's transaction.
  abbrev pub AnswersAll : List (ℕ × AnswerRow) → ℕ → List Signature → Type 0
  AnswersAll table id [] = Unit
  AnswersAll table id (s ∷ ss) =
      ((row : AnswerRow) × (map_get id table ≡ some row)
        × (row.row_error ≡ false)
        × (row.row_result ≡ chain s))
      × AnswersAll table (suc id) ss

  abbrev or_else : Option KeeperEffect → Option KeeperEffect → Option KeeperEffect
  or_else none old = old
  or_else (some e) old = some e

  set_effect-get :
      (s t : Signature) (e : Option KeeperEffect) (m : Effects)
      → map_get t (set_effect s e m) ≡ (if s == t then or_else e (map_get t m) else map_get t m)
  set_effect-get s t none m = same_both (s == t)
    where
      same_both : (b : Bool) → map_get t m ≡ (if b then map_get t m else map_get t m)
      same_both true = refl
      same_both false = refl
  set_effect-get s t (some e) m = map_get-set t s e m

  or_else-asked :
      (a : Bool) (e old : Option KeeperEffect) → old ≡ (if a then e else none) → or_else e old ≡ e
  or_else-asked a (some e) old h = refl
  or_else-asked true none old h = h
  or_else-asked false none old h = h

  Known-set_effect :
      (s : Signature) (asked : Signature → Bool) (m : Effects)
      → Known asked m
      → Known (λ t. (s == t) || asked t) (set_effect s (effect_on_chain s) m)
  Known-set_effect s asked m h t = set_effect-get s t (effect_on_chain s) m ∙ by_test (s == t) refl
    where
      by_test :
          (b : Bool)
          → (s == t) ≡ b
          → (if b then or_else (effect_on_chain s) (map_get t m) else map_get t m)
            ≡ (if b || asked t then effect_on_chain t else none)
      by_test true e =
          ap (λ u. or_else (effect_on_chain u) (map_get t m)) ((==_iff s t).0 e)
          ∙ or_else-asked (asked t) (effect_on_chain t) (map_get t m) (h t)
      by_test false e = h t

  row_effect-of :
      (row : AnswerRow) (s : Signature)
      → row.row_error ≡ false
      → row.row_result ≡ chain s
      → row_effect keeper (some row) ≡ effect_on_chain s
  unfolding row_effect
  row_effect-of row s fine same = rw (fine, same) refl

  Known-same :
      (f g : Signature → Bool) (m : Effects) → ((t : Signature) → f t ≡ g t) → Known f m → Known g m
  Known-same f g m same h t =
      h t ∙ ap (λ (b : Bool). if b then effect_on_chain t else none) (same t)

  Known-take_answers :
      (table : List (ℕ × AnswerRow)) (id : ℕ) (ss : List Signature) (asked : Signature → Bool)
      (m : Effects)
      → AnswersAll table id ss
      → Known asked m
      → Known (λ t. has t ss || asked t) (take_answers keeper table id ss m)
  unfolding take_answers
  Known-take_answers table id [] asked m all h = h
  Known-take_answers table id (s ∷ ss) asked m ((row, is, fine, same), all) h =
      let set =
        λ (e : Option KeeperEffect). take_answers keeper table (suc id) ss (set_effect s e m) in
      subst (λ e. Known (λ t. has t (s ∷ ss) || asked t) (set e))
        (sym (ap (row_effect keeper) is ∙ row_effect-of row s fine same))
        (Known-same (λ t. has t ss || ((s == t) || asked t)) _ _ (λ t. ground arith)
          (Known-take_answers table (suc id) ss (λ t. (s == t) || asked t) _ all
            (Known-set_effect s asked m h)))

  -- One of the two calls for a chunk is answered in full.
  abbrev pub IsAnswered : RpcBatch → Type 0
  IsAnswered rpc =
      (calls : ℕ) (chunk : List Signature)
      → (rows : List AnswerRow) × (asked_twice rpc calls chunk ≡ some rows)
        × AnswersAll (by_id rows []) 0 chunk

  module _ (rpc : RpcBatch) (size : ℕ) where
    Known-take_batch :
        (calls : ℕ) (chunk : List Signature) (asked : Signature → Bool) (m : Effects)
        → IsAnswered rpc
        → Known asked m
        → Known
            (λ t. has t chunk || asked t)
            (take_batch keeper (asked_twice rpc calls chunk) chunk m)
    unfolding take_batch
    Known-take_batch calls chunk asked m answered h =
        let (rows, is, all) = answered calls chunk in
        subst (λ o. Known (λ t. has t chunk || asked t) (take_batch keeper o chunk m)) (sym is)
          (Known-take_answers (by_id rows []) 0 chunk asked m all h)

    Known-read_chunks :
        (fuel calls : ℕ) (ss : List Signature) (asked : Signature → Bool) (m : Effects)
        → 1 ≤ size
        → length ss ≤ fuel
        → IsAnswered rpc
        → Known asked m
        → Known (λ t. has t ss || asked t) (read_chunks keeper rpc size fuel calls ss m)
    unfolding read_chunks
    Known-read_chunks zero calls [] asked m some_size enough answered h = h
    Known-read_chunks zero calls (s ∷ ss) asked m some_size enough answered h =
        λ t. ground (arith, enough)
    Known-read_chunks (suc fuel) calls [] asked m some_size enough answered h = h
    Known-read_chunks (suc fuel) calls (s ∷ ss) asked m some_size enough answered h =
        let chunk = take size (s ∷ ss) in
        Known-same (λ t. has t (drop size (s ∷ ss)) || (has t chunk || asked t)) _ _
          (λ t. ground (arith, has-take-drop t size (s ∷ ss)))
          (Known-read_chunks fuel (suc (suc calls)) (drop size (s ∷ ss))
            (λ t. has t chunk || asked t) _ some_size
            (omega (arith, length-drop size (s ∷ ss), enough, some_size)) answered
            (Known-take_batch calls chunk asked m answered h))

  has-nonempty :
      (t : ℕ) (xs : List ℕ) → has t (filter (λ s. not (s == 0)) xs) ≡ (has t xs && not (t == 0))
  has-nonempty t [] = refl
  has-nonempty t (x ∷ xs) = grind (arith, has-nonempty t xs)

  -- Where one of the two calls for each chunk is answered in full, `readKeeperEffects` is the map
  -- that has, for each signature asked about, what the chain's transaction did, and no other, in
  -- whatever chunks it asks.
  pub read_keeper_effects_lem :
      (rpc : RpcBatch) (batch_size : Option ℕ) (signatures : List Signature)
      → IsAnswered rpc
      → (s : Signature)
      → map_get s (read_keeper_effects rpc batch_size keeper signatures)
        ≡ (if has s signatures && not (s == 0) then effect_on_chain s else none)
  unfolding read_keeper_effects
  read_keeper_effects_lem rpc batch_size signatures answered s =
      let asked = filter (λ (t : Signature). not (t == 0)) signatures in
      Known-same (λ t. has t (dedup asked) || false) (λ t. has t signatures && not (t == 0)) _
        (λ t. grind (arith, has-dedup t asked, has-nonempty t signatures))
        (Known-read_chunks rpc (max 1 (size_or_default batch_size)) (length (dedup asked)) 0
          (dedup asked) (λ t. false) [] (omega arith) (omega arith) answered (λ t. refl))
        s
