-- ===== src/Orchestrator/ProgramErrors.antt =====
-- offchain/orchestrator/burns.ts, `matchError`: the program errors that a burn may be refused with.
use pumpling.Base.{
  Bool, List, Option, [], false, if◌then◌else◌, none, not, some, true, ◌++◌, ◌||◌, ◌∷◌,
}
use pumpling.Base.Text.{Text, codes, is_hex, lower, strip_prefix}

-- `custom program error: <code>(?![0-9a-f])`, anywhere in the text
abbrev ends_code : Option Text → Bool
ends_code none = false
ends_code (some []) = true
ends_code (some (c ∷ s)) = not (is_hex c)

unfoldable pub has_program_error : Text → Text → Bool
has_program_error code [] = false
has_program_error code (c ∷ s) =
    ends_code (strip_prefix (codes "custom program error: " ++ code) (c ∷ s))
    || has_program_error code s

abbrev pub ErrorTable : Type 0
ErrorTable = List (Text × Text)

abbrev pub structural_errors : ErrorTable
structural_errors =
    (codes "0x41", codes "the coin's mint does not allow burning (ConfidentialMintBurn)")
    ∷ (codes "0xc", codes "the coin's mint only allows permissioned burns (PermissionedBurn)")
    ∷ []

abbrev pub liftable_errors : ErrorTable
liftable_errors =
    (codes "0x11", codes "our token account for the coin is frozen")
    ∷ (codes "0x43", codes "the coin's mint is paused")
    ∷ []

-- `matchError`
unfoldable pub match_error : Text → ErrorTable → Option Text
unfolding has_program_error
match_error message [] = none
match_error message ((code, reason) ∷ table) =
    if has_program_error code (lower message) then some reason else match_error message table
