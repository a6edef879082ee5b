-- ===== src/Common/Varint.antt =====
-- The varint format that stutil/encode.go and stnet/spb.go share: seven bits a byte, the lowest
-- group first, the top bit set on every byte but the last. This is the format by itself, the
-- independent description that both encoders are held against.
use gotools.Common.{
  ℕ, zero, suc, ◌+◌, ◌*◌, ◌/◌, ◌%◌, ◌^◌, ◌≤◌, ◌<◌, ◌≡◌, ap, arith, List, [], ◌∷◌, ltb, true, false,
  length, All, bit_and, bit_or,
}
use gotools.Common.Bits.{low_seven, bit_or-add}
use native.Mathlib.Nat.{div-add-mod}
use native.Mathlib.Numerals.{towards_suc}

abbrev pub IsByte : ℕ → Type 0
IsByte b = b < 256

abbrev pub IsU64 : ℕ → Type 0
IsU64 x = x < 2 ^ 64

-- `x` in at most `k + 1` bytes.
unfoldable pub varint : ℕ → ℕ → List ℕ
varint zero x = x ∷ []
varint (suc k) x = elim (ltb x 128) [ true ↦ x ∷ [] | false ↦ (x % 128 + 128) ∷ varint k (x / 128) ]

-- A uint64 takes at most ten bytes.
abbrev pub varint64 : ℕ → List ℕ
varint64 x = varint 9 x

pub varint-IsByte : (k x : ℕ) → x < 128 ^ suc k → All IsByte (varint k x)
unfolding varint
varint-IsByte zero x h = omega arith
varint-IsByte (suc k) x h = ground (arith, varint-IsByte k (x / 128) (omega arith))

pub length-varint : (k x : ℕ) → (1 ≤ length (varint k x)) × (length (varint k x) ≤ k + 1)
unfolding varint
length-varint zero x = omega arith
length-varint (suc k) x = ground (arith, length-varint k (x / 128))

seven_more : (s : ℕ) → 2 ^ (s + 7) ≡ 2 ^ s * 128
seven_more s = simp towards_suc (omega arith)

-- The lowest group of `x` and the groups above it, both shifted by `s`.
pub split_group : (x s : ℕ) → x * 2 ^ s ≡ x / 128 * 2 ^ (s + 7) + x % 128 * 2 ^ s
split_group x s =
    let high = ap (λ (t : ℕ). x / 128 * t) (seven_more s) in
    let whole = ap (λ (t : ℕ). t * 2 ^ s) (div-add-mod x 128) in omega (arith, high, whole)

-- What one round of both decoders adds to `x`, `x | (b & 0x7F) << shift` on 64 bits.
abbrev pub or_group : ℕ → ℕ → ℕ → ℕ
or_group x b shift = bit_or x (bit_and b 0x7f * 2 ^ shift % 2 ^ 64)

pub or_group_lem :
    (x b shift : ℕ)
    → b < 256
    → x < 2 ^ shift
    → IsU64 (x + b % 128 * 2 ^ shift)
    → or_group x b shift ≡ x + b % 128 * 2 ^ shift
or_group_lem x b shift hb hx fits =
    let small : b % 128 * 2 ^ shift % 2 ^ 64 ≡ b % 128 * 2 ^ shift = omega arith in
    rw (low_seven b hb, small) (bit_or-add shift x (b % 128) hx)

-- A group keeps the number below the next shift.
pub group-lt : (x g s : ℕ) → x < 2 ^ s → g < 128 → x + g * 2 ^ s < 2 ^ (s + 7)
group-lt x g s hx hg = grind (arith, seven_more s)
