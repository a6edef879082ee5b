-- ===== src/Common/Bits.antt =====
-- The bit operations of the source as arithmetic: masks of low bits, the top bit of a byte, and
-- `|` of numbers that share no bit.
use Prim.Native.Nat.{
  ℕ, zero, suc, ◌+◌, ◌*◌, ◌/◌, ◌%◌, ◌^◌, ◌≤◌, ◌<◌, min, max, bit_and, bit_or, digits,
  bit_and-bitwise, bit_or-bitwise,
}
use mathlib.Core.Path.{◌≡◌, refl, ap, ◌∙◌}
use mathlib.Core.Bool.{Bool, true, ◌&&◌}
use native.Mathlib.Omega.{arith}
use native.Mathlib.Nat.{pow-suc}
use gotools.Common.Tests.{◌==◌, ==_iff}

-- Whether a test holds at every number below the first.
abbrev pub every : ℕ → (ℕ → Bool) → Bool
every zero test = true
every (suc n) test = every n test && test n

every-at : (test : ℕ → Bool) (n x : ℕ) → x < n → every n test ≡ true → test x ≡ true
every-at test zero x below h = absurd (omega arith)
every-at test (suc n) x below h = ground (arith, every-at test n x)

-- Two functions that agree on a table agree below its length.
pub eq_below :
    (n : ℕ) (f g : ℕ → ℕ) → every n (λ x. f x == g x) ≡ true → (x : ℕ) → x < n → f x ≡ g x
eq_below n f g t x h = (==_iff (f x) (g x)).0 (every-at _ n x h t)

pub low_seven : (b : ℕ) → b < 256 → bit_and b 0x7f ≡ b % 128
low_seven = eq_below 256 _ _ refl

pub top_bit : (b : ℕ) → b < 256 → bit_and b 0x80 ≡ b / 128 * 128
top_bit = eq_below 256 _ _ refl

pub low_four : (b : ℕ) → b < 256 → bit_and b 0xf ≡ b % 16
low_four = eq_below 256 _ _ refl

pub or_top : (b : ℕ) → b < 128 → bit_or b 0x80 ≡ b + 128
or_top = eq_below 128 _ _ refl

pub top_or : (b : ℕ) → b < 128 → bit_or 0x80 b ≡ b + 128
top_or = eq_below 128 _ _ refl

abbrev halves : ℕ → ℕ → ℕ × ℕ
halves x y = (suc x / 2, y / 2)

-- The recursion on digits that the native `&` and `|` stand for gives the same at any fuel that
-- reaches the first number.
module _ (rest : ℕ → ℕ) (op : ℕ → ℕ → ℕ) where
  digits_enough : (g h x y : ℕ) → x ≤ g → x ≤ h → digits rest op g x y ≡ digits rest op h x y
  digits_enough zero zero x y below under = refl
  digits_enough (suc g) zero zero y below under = refl
  digits_enough zero (suc h) zero y below under = refl
  digits_enough (suc g) (suc h) zero y below under = refl
  digits_enough (suc g) zero (suc x) y below under = absurd (omega arith)
  digits_enough zero (suc h) (suc x) y below under = absurd (omega arith)
  digits_enough (suc g) (suc h) (suc x) y below under =
      let (u, v) = halves x y in omega (arith, digits_enough g h u v (omega arith) (omega arith))

pub zero-bit_or : (y : ℕ) → bit_or 0 y ≡ y
zero-bit_or y = bit_or-bitwise 0 y

bit_or_step : (x y : ℕ) → bit_or x y ≡ max (x % 2) (y % 2) + 2 * bit_or (x / 2) (y / 2)
bit_or_step zero y = omega (arith, zero-bit_or (y / 2), zero-bit_or y)
bit_or_step (suc x) y =
    let (u, v) = halves x y in
    let same = digits_enough (λ t. t) max x u u v (omega arith) (omega arith) in
    omega (arith, same, bit_or-bitwise u v, bit_or-bitwise (suc x) y)

zero-bit_and : (y : ℕ) → bit_and 0 y ≡ 0
zero-bit_and y = bit_and-bitwise 0 y

bit_and_step : (x y : ℕ) → bit_and x y ≡ min (x % 2) (y % 2) + 2 * bit_and (x / 2) (y / 2)
bit_and_step zero y = omega (arith, zero-bit_and (y / 2), zero-bit_and y)
bit_and_step (suc x) y =
    let (u, v) = halves x y in
    let same = digits_enough (λ t. zero) min x u u v (omega arith) (omega arith) in
    omega (arith, same, bit_and-bitwise u v, bit_and-bitwise (suc x) y)

and_nothing : (g x : ℕ) → x ≤ g → bit_and x 0 ≡ 0
and_nothing g zero h = zero-bit_and 0
and_nothing zero (suc x) h = absurd (omega arith)
and_nothing (suc g) (suc x) h =
    let u : ℕ = suc x / 2 in omega (arith, and_nothing g u (omega arith), bit_and_step (suc x) 0)

-- A mask of seven ones takes the remainder by 128: one step for each of them.
mask_three : (x : ℕ) → bit_and x 7 ≡ x % 8
mask_three x =
    let u : ℕ = x / 2 in
    let v : ℕ = u / 2 in
    let last = and_nothing (v / 2) (v / 2) (omega arith) in
    omega (arith, last, bit_and_step v 1, bit_and_step u 3, bit_and_step x 7)

pub mask_seven : (x : ℕ) → bit_and x 0x7f ≡ x % 128
mask_seven x =
    let u : ℕ = x / 2 in
    let v : ℕ = u / 2 in
    let w : ℕ = v / 2 in
    omega (
      arith,
      mask_three (w / 2),
      bit_and_step w 15,
      bit_and_step v 31,
      bit_and_step u 63,
      bit_and_step x 127,
    )

-- `x | y` is `x + y` where `y` is a multiple of 2 ^ k and `x` is below it.
pub bit_or-add : (k x y : ℕ) → x < 2 ^ k → bit_or x (y * 2 ^ k) ≡ x + y * 2 ^ k
bit_or-add zero x y h = let z : x ≡ 0 = omega arith in rw z (zero-bit_or _ ∙ omega arith)
bit_or-add (suc k) x y h =
    let e : y * 2 ^ suc k ≡ y * 2 ^ k * 2 = omega (arith, ap (λ (t : ℕ). y * t) (pow-suc 2 k)) in
    let half : x / 2 < 2 ^ k = omega (arith, pow-suc 2 k) in
    let d : y * 2 ^ k * 2 / 2 ≡ y * 2 ^ k = omega arith in
    rw (e, bit_or_step, d, bit_or-add k (x / 2) y half) (omega arith)
