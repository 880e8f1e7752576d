-- ===== src/Orchestrator/RefundLedger/Totals.antt =====
-- Sums of debits (offchain/orchestrator/refundLedger.ts).
use pumpling.Base.{List, [], ap, arith, sym, ◌++◌, ◌∙◌, ◌∷◌, ◌≡◌}
use pumpling.Orchestrator.RefundLedger.{Debit, pay, plus}

pub Debit-ext : (a b : Debit) → a.paid ≡ b.paid → a.got ≡ b.got → a ≡ b
Debit-ext a b e f = cc (e, f)

pub plus_assoc : (a b c : Debit) → plus (plus a b) c ≡ plus a (plus b c)
plus_assoc a b c = Debit-ext _ _ (omega arith) (omega arith)

module _ {ℓ} {A : Type ℓ} (f : A → Debit) where
  abbrev pub total : List A → Debit
  total [] = pay 0
  total (x ∷ xs) = plus (f x) (total xs)

  pub total-append : (xs ys : List A) → total (xs ++ ys) ≡ plus (total xs) (total ys)
  total-append [] ys = Debit-ext _ _ (omega arith) (omega arith)
  total-append (x ∷ xs) ys =
      ap (plus (f x)) (total-append xs ys) ∙ sym (plus_assoc (f x) (total xs) (total ys))
