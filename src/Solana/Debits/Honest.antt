-- ===== src/Solana/Debits/Honest.antt =====
-- offchain/solana/debits.ts: what is on record where calls fail or rows are missing.
use pumpling.Base.{
  ==_iff, Bool, List, Option, Option-cases, [], ap, drop, false, if◌then◌else◌, inl, inr, max, none,
  refl, some, subst, suc, sym, take, true, zero, ℕ, ◌==◌, ◌∙◌, ◌∷◌, ◌≡◌,
}
use pumpling.Orchestrator.Types.{Signature}
use pumpling.Solana.Debits.{
  AnswerRow, KeeperEffect, Key, RawAnswer, RpcBatch, asked_twice, by_id, effect_from, map_get,
  read_chunks, read_keeper_effects, row_effect, set_effect, size_or_default, take_answers,
  take_batch,
}
use pumpling.Solana.Debits.Deltas.{map_get-set}
use pumpling.Solana.Debits.Reading.{effect_on_chain}

module _ (chain : Signature → RawAnswer) (keeper : Key) where
  -- A row without an error has the transaction of its call.
  abbrev pub AnswersHonestly : List (ℕ × AnswerRow) → ℕ → List Signature → Type 0
  AnswersHonestly table id [] = Unit
  AnswersHonestly table id (s ∷ ss) =
      ((row : AnswerRow)
        → map_get id table ≡ some row
        → row.row_error ≡ false
        → row.row_result ≡ chain s)
      × AnswersHonestly table (suc id) ss

  -- What is on record is what the chain says.
  abbrev IsSound : (List (Signature × KeeperEffect)) → Type 0
  IsSound m =
      (s : Signature) (e : KeeperEffect)
      → map_get s m ≡ some e
      → effect_on_chain chain keeper s ≡ some e

  IsSound-set_effect :
      (s : Signature) (o : Option KeeperEffect) (m : (List (Signature × KeeperEffect)))
      → ((e : KeeperEffect) → o ≡ some e → effect_on_chain chain keeper s ≡ some e)
      → IsSound m
      → IsSound (set_effect s o m)
  IsSound-set_effect s none m own h t e is = h t e is
  IsSound-set_effect s (some x) m own h t e is =
      by_test (s == t) refl (sym (map_get-set t s x m) ∙ is)
    where
      by_test :
          (b : Bool)
          → (s == t) ≡ b
          → (if b then some x else map_get t m) ≡ some e
          → effect_on_chain chain keeper t ≡ some e
      by_test true same found =
          subst (λ u. effect_on_chain chain keeper u ≡ some e) ((==_iff s t).0 same) (own e found)
      by_test false other found = h t e found

  row_effect-honest :
      (o : Option AnswerRow) (s : Signature)
      → ((row : AnswerRow) → o ≡ some row → row.row_error ≡ false → row.row_result ≡ chain s)
      → (e : KeeperEffect) → row_effect keeper o ≡ some e
      → effect_on_chain chain keeper s ≡ some e
  unfolding row_effect
  row_effect-honest none s honest e is = cc
  row_effect-honest (some row) s honest e is = by_error (row.row_error) refl is
    where
      by_error :
          (b : Bool)
          → row.row_error ≡ b
          → (if b then none else effect_from row.row_result keeper) ≡ some e
          → effect_on_chain chain keeper s ≡ some e
      by_error true bad found = cc
      by_error false fine found =
          sym (ap (λ r. effect_from r keeper) (honest row refl fine)) ∙ found

  IsSound-take_answers :
      (table : List (ℕ × AnswerRow)) (id : ℕ) (ss : List Signature)
      (m : (List (Signature × KeeperEffect)))
      → AnswersHonestly table id ss
      → IsSound m
      → IsSound (take_answers keeper table id ss m)
  unfolding take_answers
  IsSound-take_answers table id [] m honest h = h
  IsSound-take_answers table id (s ∷ ss) m honest h =
      IsSound-take_answers table (suc id) ss _ honest.1 (
        IsSound-set_effect s (row_effect keeper (map_get id table)) m
          (row_effect-honest (map_get id table) s honest.0) h)

  -- Every row of a call that is answered has its call's transaction, or an error.
  abbrev pub IsTruthful : RpcBatch → Type 0
  IsTruthful rpc =
      (calls : ℕ) (chunk : List Signature) (rows : List AnswerRow)
      → rpc calls chunk ≡ some rows
      → AnswersHonestly (by_id rows []) 0 chunk

  module _ (rpc : RpcBatch) (size : ℕ) (honest : IsTruthful rpc) where
    asked_twice-honest :
        (calls : ℕ) (chunk : List Signature) (rows : List AnswerRow)
        → asked_twice rpc calls chunk ≡ some rows
        → AnswersHonestly (by_id rows []) 0 chunk
    unfolding asked_twice
    asked_twice-honest calls chunk rows e = by_first (rpc calls chunk) refl e
      where
        by_first :
            (o : Option (List AnswerRow))
            → rpc calls chunk ≡ o
            → (elim o [ some r ↦ some r | none ↦ rpc (suc calls) chunk ]) ≡ some rows
            → AnswersHonestly (by_id rows []) 0 chunk
        by_first none first second = honest (suc calls) chunk rows second
        by_first (some r) first same = honest calls chunk rows (first ∙ same)

    IsSound-take_batch :
        (calls : ℕ) (chunk : List Signature) (m : (List (Signature × KeeperEffect)))
        → IsSound m
        → IsSound (take_batch keeper (asked_twice rpc calls chunk) chunk m)
    unfolding take_batch
    IsSound-take_batch calls chunk m h = elim (Option-cases (asked_twice rpc calls chunk)) [
      | inl e ↦ rw (e, take_batch) h
      | inr (rows, e) ↦
          rw (e, take_batch)
            (IsSound-take_answers (by_id rows []) 0 chunk m (asked_twice-honest calls chunk rows e)
              h)
    ]

    IsSound-read_chunks :
        (fuel calls : ℕ) (ss : List Signature) (m : (List (Signature × KeeperEffect)))
        → IsSound m
        → IsSound (read_chunks keeper rpc size fuel calls ss m)
    unfolding read_chunks
    IsSound-read_chunks zero calls ss m h = h
    IsSound-read_chunks (suc fuel) calls [] m h = h
    IsSound-read_chunks (suc fuel) calls (s ∷ ss) m h =
        IsSound-read_chunks fuel (suc (suc calls)) (drop size (s ∷ ss)) _
          (IsSound-take_batch calls (take size (s ∷ ss)) m h)

  -- Whatever calls fail and whatever rows are missing, an effect on record is what the chain's
  -- transaction did, where the rows that are there have their call's transaction or an error.
  pub read_keeper_effects-IsSound :
      (rpc : RpcBatch) (batch_size : Option ℕ) (signatures : List Signature)
      → IsTruthful rpc
      → IsSound (read_keeper_effects rpc batch_size keeper signatures)
  unfolding read_keeper_effects
  read_keeper_effects-IsSound rpc batch_size signatures honest =
      IsSound-read_chunks rpc (max 1 (size_or_default batch_size)) honest _ 0 _ [] (λ s e is. cc)
