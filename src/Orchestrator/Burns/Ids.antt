-- ===== src/Orchestrator/Burns/Ids.antt =====
-- The ids of a round's burns: the serial numbers 1, 2, 3, …, so that an id finds its own record.
use pumpling.Base.{
  All, Bool, Bool-cases, List, [], arith, filter, find?, inl, inr, length, refl, some, suc, update,
  ℕ, ◌++◌, ◌+◌, ◌<◌, ◌∙◌, ◌∷◌, ◌≡◌, ◌≢◌, ◌≤◌,
}
use pumpling.Orchestrator.State.{is_burn}
use pumpling.Orchestrator.Types.{BurnRecord}

-- The records from serial number k + 1 on.
abbrev pub Numbered : ℕ → List BurnRecord → Type 0
Numbered k [] = Unit
Numbered k (b ∷ bs) = (b.id ≡ suc k) × Numbered (suc k) bs

-- Ids that grow, all of them above k.
abbrev pub Ascending : ℕ → List BurnRecord → Type 0
Ascending k [] = Unit
Ascending k (b ∷ bs) = (k < b.id) × Ascending b.id bs

pub Numbered-append :
    (k : ℕ) (bs : List BurnRecord) (b : BurnRecord)
    → Numbered k bs
    → b.id ≡ k + length bs + 1
    → Numbered k (bs ++ (b ∷ []))
Numbered-append k [] b n e = omega arith
Numbered-append k (c ∷ bs) b n e = (n.0, Numbered-append (suc k) bs b n.1 (omega arith))

pub Numbered-update :
    (k id : ℕ) (change : BurnRecord → BurnRecord) (bs : List BurnRecord)
    → ((b : BurnRecord) → (change b).id ≡ b.id)
    → Numbered k bs
    → Numbered k (update (is_burn id) change bs)
Numbered-update k id change [] same n = tt
Numbered-update k id change (b ∷ bs) same n =
    ground (arith, same b, Numbered-update (suc k) id change bs same n.1)

weaken-Ascending : (j k : ℕ) (bs : List BurnRecord) → j ≤ k → Ascending k bs → Ascending j bs
weaken-Ascending j k [] le a = tt
weaken-Ascending j k (b ∷ bs) le a = (omega arith, a.1)

filter-Ascending :
    (k : ℕ) (p : BurnRecord → Bool) (bs : List BurnRecord)
    → Ascending k bs
    → Ascending k (filter p bs)
filter-Ascending k p [] a = tt
filter-Ascending k p (b ∷ bs) a = elim (Bool-cases (p b)) [
  | inl e ↦ rw e (a.0, filter-Ascending b.id p bs a.1)
  | inr e ↦ rw e (filter-Ascending k p bs (weaken-Ascending k b.id bs (omega arith) a.1))
]

Numbered-Ascending : (k : ℕ) (bs : List BurnRecord) → Numbered k bs → Ascending k bs
Numbered-Ascending k [] n = tt
Numbered-Ascending k (b ∷ bs) n = (
  omega arith,
  weaken-Ascending b.id (suc k) bs (omega arith) (Numbered-Ascending (suc k) bs n.1),
)

-- Each of these records is what its id finds.
abbrev pub AllFound : List BurnRecord → List BurnRecord → Type 0
AllFound all bs = All (λ b. find? (is_burn b.id) all ≡ some b) bs

found-skip :
    (c : BurnRecord) (all bs : List BurnRecord)
    → Ascending c.id bs
    → AllFound all bs
    → AllFound (c ∷ all) bs
found-skip c all [] a f = tt
found-skip c all (b ∷ bs) a f =
    (ground arith, found-skip c all bs (weaken-Ascending c.id b.id bs (omega arith) a.1) f.1)

found_self : (k : ℕ) (bs : List BurnRecord) → Ascending k bs → AllFound bs bs
found_self k [] a = tt
found_self k (b ∷ bs) a = (ground arith, found-skip b bs bs a.1 (found_self b.id bs a.1))

All-filter {κ} :
    (P : BurnRecord → Type κ) (p : BurnRecord → Bool) (bs : List BurnRecord)
    → All P bs
    → All P (filter p bs)
All-filter P p [] h = tt
All-filter P p (b ∷ bs) h = elim (Bool-cases (p b)) [
  | inl e ↦ rw e (h.0, All-filter P p bs h.1)
  | inr e ↦ rw e (All-filter P p bs h.1)
]

-- What a filter leaves of numbered records is ascending, and every id finds its record.
pub filter-found :
    (p : BurnRecord → Bool) (bs : List BurnRecord)
    → Numbered 0 bs
    → AllFound bs (filter p bs) × Ascending 0 (filter p bs)
filter-found p bs n =
    let a = Numbered-Ascending 0 bs n in
    (All-filter _ p bs (found_self 0 bs a), filter-Ascending 0 p bs a)

find-update_ne :
    (id j : ℕ) (change : BurnRecord → BurnRecord) (bs : List BurnRecord)
    → ((b : BurnRecord) → (change b).id ≡ b.id)
    → id ≢ j
    → find? (is_burn j) (update (is_burn id) change bs) ≡ find? (is_burn j) bs
find-update_ne id j change [] same ne = refl
find-update_ne id j change (b ∷ bs) same ne =
    ground (arith, same b, find-update_ne id j change bs same ne)

-- A change of one record leaves what every higher id finds.
pub found-update :
    (id : ℕ) (change : BurnRecord → BurnRecord) (all bs : List BurnRecord)
    → ((b : BurnRecord) → (change b).id ≡ b.id)
    → Ascending id bs
    → AllFound all bs
    → AllFound (update (is_burn id) change all) bs
found-update id change all [] same a f = tt
found-update id change all (b ∷ bs) same a f = (
  find-update_ne id b.id change all same (omega arith) ∙ f.0,
  found-update id change all bs same (weaken-Ascending id b.id bs (omega arith) a.1) f.1,
)

-- The record that a numbered list ends in is found by its id.
pub found-last :
    (k : ℕ) (bs : List BurnRecord) (b : BurnRecord)
    → Numbered k bs
    → b.id ≡ k + length bs + 1
    → find? (is_burn b.id) (bs ++ (b ∷ [])) ≡ some b
found-last k [] b n e = ground arith
found-last k (c ∷ bs) b n e = ground (arith, found-last (suc k) bs b n.1)
