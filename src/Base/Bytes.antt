-- ===== src/Base/Bytes.antt =====
-- Buffers as lists of bytes: little-endian numbers, and what stands at an offset.
use Prim.Native.Nat.{ℕ, zero, suc, ◌+◌, ◌*◌, ◌/◌, ◌%◌, ◌<◌}
use mathlib.Core.Path.{◌≡◌, refl, sym, ap, ◌∙◌}
use mathlib.Core.List.{List, [], ◌∷◌, ◌++◌, append_assoc}
use native.Mathlib.Omega.{arith}
use pumpling.Base.Tests.{if◌then◌else◌, if_elim, ltb}
use pumpling.Base.Lists.{length, take, drop, length-append}
use pumpling.Base.Outcome.{Result, ok, err, out_of_range, value_too_large}

abbrev pub Bytes : Type 0
Bytes = List ℕ

abbrev pub le_value : Bytes → ℕ
le_value [] = 0
le_value (b ∷ bs) = b + 256 * le_value bs

abbrev pub le_bytes : ℕ → ℕ → Bytes
le_bytes zero n = []
le_bytes (suc k) n = n % 256 ∷ le_bytes k (n / 256)

-- The first number that does not fit into so many bytes.
abbrev pub capacity : ℕ → ℕ
capacity zero = 1
capacity (suc k) = 256 * capacity k

pub length-le_bytes : (k n : ℕ) → length (le_bytes k n) ≡ k
length-le_bytes zero n = refl
length-le_bytes (suc k) n = omega (arith, length-le_bytes k (n / 256))

pub le_value-le_bytes : (k n : ℕ) → n < capacity k → le_value (le_bytes k n) ≡ n
le_value-le_bytes zero n h = omega (arith, h)
le_value-le_bytes (suc k) n h = omega (arith, le_value-le_bytes k (n / 256) (omega (arith, h)))

-- `readUIntLE` and its kind: past the end they throw.
unfoldable pub read_uint : ℕ → ℕ → Bytes → Result ℕ
read_uint k offset buf =
    if ltb (length buf) (offset + k)
    then err out_of_range
    else ok (le_value (take k (drop offset buf)))

-- `toArrayLike(Buffer, "le", k)` of a big number: one that does not fit is refused.
unfoldable pub to_le : ℕ → ℕ → Result Bytes
to_le k n = if ltb n (capacity k) then ok (le_bytes k n) else err value_too_large

-- From the offset on, the buffer has these bytes.
pub record HasRest (buf : Bytes) (offset : ℕ) (rest : Bytes) : Type 0 where
  pub front : Bytes
  pub split : buf ≡ front ++ rest
  pub at : length front ≡ offset

pub HasRest-start : (buf : Bytes) → HasRest buf 0 buf
HasRest-start buf = record { front = []; split = refl; at = refl }

-- Past the first bytes of the rest.
pub HasRest-skip :
    (buf : Bytes) (offset n : ℕ) (xs ys : Bytes)
    → length xs ≡ n
    → HasRest buf offset (xs ++ ys)
    → HasRest buf (offset + n) ys
HasRest-skip buf offset n xs ys size h = record {
  front = h.front ++ xs;
  split = h.split ∙ sym (append_assoc h.front xs ys);
  at = omega (arith, length-append h.front xs, h.at, size);
}

drop-length : (xs ys : Bytes) → drop (length xs) (xs ++ ys) ≡ ys
drop-length [] ys = refl
drop-length (x ∷ xs) ys = drop-length xs ys

take-length : (xs ys : Bytes) → take (length xs) (xs ++ ys) ≡ xs
take-length [] ys = refl
take-length (x ∷ xs) ys = ap (λ zs. x ∷ zs) (take-length xs ys)

pub HasRest-drop :
    (buf : Bytes) (offset : ℕ) (rest : Bytes) → HasRest buf offset rest → drop offset buf ≡ rest
HasRest-drop buf offset rest h =
    ap (λ n. drop n buf) (sym h.at)
    ∙ (ap (drop (length h.front)) h.split ∙ drop-length h.front rest)

pub HasRest-length :
    (buf : Bytes) (offset : ℕ) (rest : Bytes)
    → HasRest buf offset rest
    → length buf ≡ offset + length rest
HasRest-length buf offset rest h =
    omega (arith, ap (λ (xs : Bytes). length xs) h.split, length-append h.front rest, h.at)

-- `subarray(offset, offset + n)`
abbrev pub subarray : ℕ → ℕ → Bytes → Bytes
subarray offset n buf = take n (drop offset buf)

pub HasRest-subarray :
    (buf : Bytes) (offset n : ℕ) (xs ys : Bytes)
    → length xs ≡ n
    → HasRest buf offset (xs ++ ys)
    → subarray offset n buf ≡ xs
HasRest-subarray buf offset n xs ys size h =
    ap (take n) (HasRest-drop buf offset (xs ++ ys) h)
    ∙ (ap (λ k. take k (xs ++ ys)) (sym size) ∙ take-length xs ys)

-- Reading what was written.
pub read_uint-le_bytes :
    (buf : Bytes) (offset k n : ℕ) (rest : Bytes)
    → n < capacity k
    → HasRest buf offset (le_bytes k n ++ rest)
    → read_uint k offset buf ≡ ok n
unfolding read_uint
read_uint-le_bytes buf offset k n rest fits h =
    if_elim (λ r. r ≡ ok n) (ltb (length buf) (offset + k)) _ _
      (λ short. ground (
        arith,
        short,
        HasRest-length buf offset (le_bytes k n ++ rest) h,
        length-append (le_bytes k n) rest,
        length-le_bytes k n,
      ))
      (λ _.
        ap (λ xs. ok (le_value xs))
          (HasRest-subarray buf offset k (le_bytes k n) rest (length-le_bytes k n) h)
        ∙ ap (λ (v : ℕ). ok v) (le_value-le_bytes k n fits))
