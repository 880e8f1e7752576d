-- ===== src/Scheduler/Batch/NoDouble.antt =====
-- The retry window of a batch (offchain/scheduler/batch.ts) signs no transaction beside one that
-- may still land.
-- The signature that a call of `buy` leaves, which may land: of the purchase, or of an error whose
use pumpling.Base.{
  ==_refl, Bool, List, Option, Option-cases, Result, Thrown, [], ap, arith, err, false,
  if◌then◌else◌, inl, inr, none, ok, ok_injective, refl, some, subst, suc, true, zero, ℕ, ◌&&◌, ◌+◌,
  ◌==◌, ◌>>=◌, ◌∙◌, ◌∷◌, ◌≡◌,
}
use pumpling.Orchestrator.Types.{Signature, Sol}
use pumpling.Scheduler.Batch.{
  BuyEnd, BuyError, Event, Outside, PendingVerdict, Run, ask, asked, bought, by_verdict, call_buy,
  called_buy, clear, has_landed, in_flight, record_all, signature_verdict, threw, verdict_of,
  with_event,
}
use pumpling.Scheduler.Batch.Failures.{count_error, store_pending}
use pumpling.Scheduler.Errors.{classify_error}
use pumpling.Scheduler.Types.{BatchState}
use pumpling.Solana.SignatureOutcome.{SignatureOutcome, absent, landed}

-- limit is known.
abbrev pub sent_with : Option (Signature × Option ℕ) → Option Signature
sent_with none = none
sent_with (some (signature, none)) = none
sent_with (some (signature, some limit)) = some signature

abbrev pub sent_by : BuyEnd → Option Signature
sent_by (bought signature venue fallback) = some signature
sent_by (threw e) = sent_with e.sent

abbrev pub is_dead : SignatureOutcome → Bool
is_dead absent = true
is_dead SignatureOutcome.failed = true
is_dead _ = false

abbrev pub without : Signature → SignatureOutcome → Option Signature → Option Signature
without signature outcome none = none
without signature outcome (some other) =
    if is_dead outcome && signature == other then none else some other

-- The signature that may still land after these events, from the one that might at their start.
abbrev pub unresolved : Option Signature → List Event → Option Signature
unresolved start [] = start
unresolved start (called_buy index end ∷ log) = sent_by end
unresolved start (asked signature outcome ∷ log) = without signature outcome (unresolved start log)

-- Every call of `buy` was made when none could.
abbrev pub IsCareful : Option Signature → List Event → Type 0
IsCareful start [] = Unit
IsCareful start (called_buy index end ∷ log) = (unresolved start log ≡ none) × IsCareful start log
IsCareful start (asked signature outcome ∷ log) = IsCareful start log

-- No transaction may still land.
abbrev pub NoneMayLand : Option Signature → List Event → Type 0
NoneMayLand start log = IsCareful start log × (unresolved start log ≡ none)

-- After a verdict: where it is clear, none may.
abbrev pub WellJudged : Option Signature → PendingVerdict × Run → Type 0
WellJudged start x = IsCareful start x.1.log × (x.0 ≡ clear → unresolved start x.1.log ≡ none)

-- What may land is nothing, or this signature, whose limit is known.
pub data MayLand (start : Option Signature) (signature : Signature) (limit : Option ℕ)
    (log : List Event) : Type 0 where
  nothing_may : unresolved start log ≡ none → MayLand start signature limit log
  this_may :
      (l : ℕ)
      → limit ≡ some l
      → unresolved start log ≡ some signature
      → MayLand start signature limit log

-- If the call returns, its value fits.
pub record After {ℓ} {A : Type ℓ} (P : A → Type 0) (m : Result A) : Type ℓ where
  pub fits : (a : A) → m ≡ ok a → P a

pub After-ok {ℓ} : {A : Type ℓ} (P : A → Type 0) (value : A) → P value → After P (ok value)
After-ok P value h = record { fits = λ a e. subst P (ok_injective e) h }

After-err {ℓ} : {A : Type ℓ} (P : A → Type 0) (t : Thrown) → After P (err t)
After-err P t = record { fits = λ a e. absurd (err_not_ok t a e) }
  where
    err_not_ok : {B : Type ℓ} (s : Thrown) (b : B) → err s ≡ ok b → ⊥
    err_not_ok s b e = cc

pub After-bind {ℓ κ} :
    {A : Type ℓ} {B : Type κ} (P : A → Type 0) (Q : B → Type 0) (m : Result A) (f : A → Result B)
    → After P m
    → ((a : A) → P a → After Q (f a))
    → After Q (m >>= f)
After-bind P Q (err e) f h k = After-err Q e
After-bind P Q (ok a) f h k = k a (h.fits a refl)

module _ (outside : Outside) where
  pub After-write :
      (L : List Event → Type 0) (change : Result BatchState) (run : Run)
      → L run.log
      → After
          (λ (r : Run). L r.log)
          (change >>= λ state. ok (record run { state = state; calls = run.calls + 1 }))
  After-write L change run h =
      After-bind (λ _. Unit) (λ (r : Run). L r.log) _ _ (record { fits = λ a e. tt })
        (λ state k. After-ok (λ (r : Run). L r.log) _ h)

  pub After-record_all :
      (L : List Event → Type 0) (index : ℕ) (signed : List (Signature × ℕ)) (run : Run)
      → L run.log
      → After (λ (r : Run). L r.log) (record_all outside index signed run)
  unfolding record_all
  After-record_all L index [] run h = After-ok (λ (r : Run). L r.log) run h
  After-record_all L index (s ∷ signed) run h =
      After-bind (λ (r : Run). L r.log) (λ (r : Run). L r.log) _ _ (After-write L _ run h)
        (λ r k. After-record_all L index signed r k)

  pub count_error-log : (e : BuyError) (run : Run) → (count_error outside e run).log ≡ run.log
  unfolding count_error
  count_error-log e run = elim (Option-cases (classify_error e.message e.venue).1) [
    | inl missing ↦ rw missing refl
    | inr (pattern, found) ↦ rw found refl
  ]

  pub After-store_pending :
      (L : List Event → Type 0) (index : ℕ) (e : BuyError) (run : Run)
      → L run.log
      → After (λ (r : Run). L r.log) (store_pending outside index e run)
  After-store_pending L index e run h = elim (Option-cases e.sent) [
    | inl missing ↦ rw missing (After-ok (λ (r : Run). L r.log) run h)
    | inr (pair, found) ↦ rw found (After-write L _ run h)
  ]

  module _ (start : Option Signature) where
    none_stays :
        (signature : Signature) (outcome : SignatureOutcome) (log : List Event)
        → unresolved start log ≡ none
        → unresolved start (asked signature outcome ∷ log) ≡ none
    none_stays signature outcome log h = ap (without signature outcome) h

    pub After-call_buy :
        (index : ℕ) (amount : Sol) (slippage : ℕ) (run : Run)
        → NoneMayLand start run.log
        → After
            (λ (x : BuyEnd × Run).
              IsCareful start x.1.log × (unresolved start x.1.log ≡ sent_by x.0))
            (call_buy outside index amount slippage run)
    unfolding call_buy
    After-call_buy index amount slippage run h =
        let buying = outside.buy run.calls amount slippage in
        let Sent = λ (log : List Event).
          IsCareful start log × (unresolved start log ≡ sent_by buying.ends) in
        After-bind (λ (r : Run). Sent r.log)
          (λ (x : BuyEnd × Run). IsCareful start x.1.log × (unresolved start x.1.log ≡ sent_by x.0))
          (record_all outside index buying.signed (with_event (called_buy index buying.ends) run))
          (λ written. ok (buying.ends, written))
          (After-record_all Sent index buying.signed (with_event (called_buy index buying.ends) run)
            ((h.1, h.0), refl))
          (λ r k. After-ok _ (buying.ends, r) k)

    -- The answer about a transaction, which is the only one that may land.
    MayLand-asked :
        (outcome : SignatureOutcome) (s : Signature) (limit : Option ℕ) (log : List Event)
        → is_dead outcome ≡ false
        → MayLand start s limit log
        → MayLand start s limit (asked s outcome ∷ log)
    MayLand-asked outcome s limit log alive (nothing_may h) =
        nothing_may (none_stays s outcome log h)
    MayLand-asked outcome s limit log alive (this_may l known h) =
        this_may l known (ap (without s outcome) h ∙ ground (arith, alive))

    dead_asked :
        (outcome : SignatureOutcome) (s : Signature) (limit : Option ℕ) (log : List Event)
        → is_dead outcome ≡ true
        → MayLand start s limit log
        → unresolved start (asked s outcome ∷ log) ≡ none
    dead_asked outcome s limit log dead (nothing_may h) = none_stays s outcome log h
    dead_asked outcome s limit log dead (this_may l known h) =
        ap (without s outcome) h ∙ ground (arith, dead, ==_refl s)

    unlimited :
        (s : Signature) (log : List Event) → MayLand start s none log → unresolved start log ≡ none
    unlimited s log (nothing_may h) = h
    unlimited s log (this_may l known h) = cc

    WellJudged-by_verdict :
        (outcome : SignatureOutcome) (s : Signature) (limit : Option ℕ) (run : Run)
        (later : PendingVerdict × Run)
        → IsCareful start run.log
        → MayLand start s limit run.log
        → (MayLand start s limit (asked s outcome ∷ run.log) → WellJudged start later)
        → WellJudged start (
            by_verdict outside
              (verdict_of outside outcome s limit (in_flight s))
              (with_event (asked s outcome) run)
              later)
    WellJudged-by_verdict landed s limit run later c m on = (c, λ e. absurd (landed_not_clear e))
      where
        landed_not_clear : has_landed s ≡ clear → ⊥
        landed_not_clear e = cc
    WellJudged-by_verdict absent s limit run later c m on =
        (c, λ e. dead_asked absent s limit run.log refl m)
    WellJudged-by_verdict SignatureOutcome.failed s limit run later c m on =
        (c, λ e. dead_asked SignatureOutcome.failed s limit run.log refl m)
    WellJudged-by_verdict SignatureOutcome.unknown s none run later c m on =
        (c, λ e. none_stays s SignatureOutcome.unknown run.log (unlimited s run.log m))
    WellJudged-by_verdict SignatureOutcome.unknown s (some l) run later c m on =
        on (MayLand-asked SignatureOutcome.unknown s (some l) run.log refl m)

    pub WellJudged-signature_verdict :
        (polls : ℕ) (s : Signature) (limit : Option ℕ) (run : Run)
        → IsCareful start run.log
        → MayLand start s limit run.log
        → WellJudged start (signature_verdict outside polls s limit run)
    unfolding signature_verdict
    WellJudged-signature_verdict zero s limit run c m =
        WellJudged-by_verdict (ask outside s limit run) s limit run _ c m
          (λ k. (c, λ e. absurd (flight_not_clear e)))
      where
        flight_not_clear : in_flight s ≡ clear → ⊥
        flight_not_clear e = cc
    WellJudged-signature_verdict (suc polls) s limit run c m =
        WellJudged-by_verdict (ask outside s limit run) s limit run _ c m (λ k.
          WellJudged-signature_verdict polls s limit
            (with_event (asked s (ask outside s limit run)) run) c k)
