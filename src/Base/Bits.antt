-- ===== src/Base/Bits.antt =====
-- Laws of `|`, `^` and `&` on numbers of any width, from what each does to the halves of its arguments.
use Prim.Native.Nat.{
  ℕ, zero, suc, ◌+◌, ◌*◌, ◌/◌, ◌%◌, ◌^◌, ◌≤◌, ◌<◌, min, max, bit_and, bit_or, bit_xor, bitwise,
  digits, differ, bit_and-bitwise, bit_or-bitwise, bit_xor-bitwise,
}
use mathlib.Core.Path.{◌≡◌, refl, ap, sym, ◌∙◌}
use mathlib.Core.Logic.{◌⊎◌, inl, inr}
use native.Mathlib.Nat.{pow-suc, div-div-eq-div-mul}
use native.Mathlib.Omega.{arith}

-- To prove a statement on two numbers, prove it for zeros and go from the halves to the numbers.
module _ {ℓ} (P : ℕ → ℕ → Type ℓ) (at_zero : P 0 0)
    (up : (x y : ℕ) → P (x / 2) (y / 2) → P x y) where
  halving_upto : (bound x y : ℕ) → x + y ≤ bound → P x y
  halving_upto zero zero zero small = at_zero
  halving_upto zero zero (suc y) small = absurd (omega arith)
  halving_upto zero (suc x) y small = absurd (omega arith)
  halving_upto (suc bound) zero zero small = at_zero
  halving_upto (suc bound) zero (suc y) small =
      up zero (suc y) (halving_upto bound (zero / 2) (suc y / 2) (omega arith))
  halving_upto (suc bound) (suc x) y small =
      up (suc x) y (halving_upto bound (suc x / 2) (y / 2) (omega arith))

  halving : (x y : ℕ) → P x y
  halving x y = halving_upto (x + y) x y (omega arith)

-- `digits` with fuel for its first number gives the same with more.
module _ (rest : ℕ → ℕ) (digit : ℕ → ℕ → ℕ) where
  one_more :
      (fuel x y : ℕ) → x ≤ fuel → digits rest digit (suc fuel) x y ≡ digits rest digit fuel x y
  one_more zero zero y enough = refl
  one_more (suc fuel) zero y enough = refl
  one_more zero (suc x) y enough = absurd (omega arith)
  one_more (suc fuel) (suc x) y enough =
      ap (λ t. t * 2 + digit (suc x % 2) (y % 2)) (one_more fuel (suc x / 2) (y / 2) (omega arith))

  last_or_before : (n m : ℕ) → n ≤ suc m → (n ≡ suc m) ⊎ (n ≤ m)
  last_or_before n m h = ground arith

  many_more :
      (more fuel x y : ℕ)
      → x ≤ fuel
      → fuel ≤ more
      → digits rest digit more x y ≡ digits rest digit fuel x y
  many_more zero zero x y enough h = refl
  many_more zero (suc fuel) x y enough h = absurd (omega arith)
  many_more (suc more) fuel x y enough h = elim (last_or_before fuel more h) [
    | inl same ↦ ap (λ n. digits rest digit n x y) (sym same)
    | inr before ↦ one_more more x y (omega arith) ∙ many_more more fuel x y enough before
  ]

  halves :
      (x y : ℕ)
      → bitwise rest digit (suc x) y
        ≡ bitwise rest digit (suc x / 2) (y / 2) * 2 + digit (suc x % 2) (y % 2)
  halves x y =
      ap (λ t. t * 2 + digit (suc x % 2) (y % 2))
        (many_more x (suc x / 2) (suc x / 2) (y / 2) (omega arith) (omega arith))

and_halves : (x y : ℕ) → bit_and x y ≡ min (x % 2) (y % 2) + 2 * bit_and (x / 2) (y / 2)
and_halves zero y = omega (arith, bit_and-bitwise 0 y, bit_and-bitwise 0 (y / 2))
and_halves (suc x) y =
    omega (
      arith,
      halves (λ t. 0) min x y,
      bit_and-bitwise (suc x) y,
      bit_and-bitwise (suc x / 2) (y / 2),
    )

or_halves : (x y : ℕ) → bit_or x y ≡ max (x % 2) (y % 2) + 2 * bit_or (x / 2) (y / 2)
or_halves zero y = omega (arith, bit_or-bitwise 0 y, bit_or-bitwise 0 (y / 2))
or_halves (suc x) y =
    omega
      (arith, halves (λ t. t) max x y, bit_or-bitwise (suc x) y, bit_or-bitwise (suc x / 2) (y / 2))

-- Of two digits.
differ_digits : (x y : ℕ) → x < 2 → y < 2 → differ x y ≡ (x + y) % 2
differ_digits zero y p q = omega arith
differ_digits (suc zero) zero p q = refl
differ_digits (suc zero) (suc zero) p q = refl
differ_digits (suc zero) (suc (suc y)) p q = absurd (omega arith)
differ_digits (suc (suc x)) y p q = absurd (omega arith)

xor_halves : (x y : ℕ) → bit_xor x y ≡ (x + y) % 2 + 2 * bit_xor (x / 2) (y / 2)
xor_halves zero y = omega (arith, bit_xor-bitwise 0 y, bit_xor-bitwise 0 (y / 2))
xor_halves (suc x) y = omega (
  arith,
  halves (λ t. t) differ x y,
  bit_xor-bitwise (suc x) y,
  bit_xor-bitwise (suc x / 2) (y / 2),
  differ_digits (suc x % 2) (y % 2) (omega arith) (omega arith),
)

pub bit_xor_comm : (x y : ℕ) → bit_xor x y ≡ bit_xor y x
bit_xor_comm =
    halving (λ x y. bit_xor x y ≡ bit_xor y x) refl
      (λ x y ih. omega (arith, xor_halves x y, xor_halves y x, ih))

-- What `^` does with a number it undoes.
pub bit_xor_cancel : (x y : ℕ) → bit_xor x (bit_xor x y) ≡ y
bit_xor_cancel =
    halving (λ x y. bit_xor x (bit_xor x y) ≡ y) refl
      (λ x y ih.
        let half : bit_xor x y / 2 ≡ bit_xor (x / 2) (y / 2) = omega (arith, xor_halves x y) in
        omega (arith, xor_halves x y, xor_halves x (bit_xor x y), ap (bit_xor (x / 2)) half, ih))

pub bit_xor_self : (x : ℕ) → bit_xor x x ≡ 0
bit_xor_self x =
    halving (λ x y. bit_xor x x ≡ 0) refl (λ x y ih. omega (arith, xor_halves x x, ih)) x 0

pub bit_xor-eq-zero : (x y : ℕ) → bit_xor x y ≡ 0 → x ≡ y
bit_xor-eq-zero =
    halving (λ x y. bit_xor x y ≡ 0 → x ≡ y) (λ e. refl)
      (λ x y ih e. omega (arith, xor_halves x y, ih (omega (arith, xor_halves x y))))

-- No number of more digits comes out.
pub bit_xor-lt : (k x y : ℕ) → x < 2 ^ k → y < 2 ^ k → bit_xor x y < 2 ^ k
bit_xor-lt zero zero zero p q = omega arith
bit_xor-lt zero zero (suc y) p q = absurd (omega arith)
bit_xor-lt zero (suc x) y p q = absurd (omega arith)
bit_xor-lt (suc k) x y p q = omega (
  arith,
  pow-suc 2 k,
  xor_halves x y,
  bit_xor-lt k (x / 2) (y / 2) (omega (arith, pow-suc 2 k)) (omega (arith, pow-suc 2 k)),
)

pub bit_xor_triangle : (x y z : ℕ) → bit_xor x z ≤ bit_xor x y + bit_xor y z
bit_xor_triangle =
    halving (λ x y. (z : ℕ) → bit_xor x z ≤ bit_xor x y + bit_xor y z) (λ z. omega arith)
      (λ x y ih z. omega (arith, xor_halves x y, xor_halves y z, xor_halves x z, ih (z / 2)))

pub zero-bit_or : (x : ℕ) → bit_or 0 x ≡ x
zero-bit_or x = bit_or-bitwise 0 x

pub bit_or_comm : (x y : ℕ) → bit_or x y ≡ bit_or y x
bit_or_comm =
    halving (λ x y. bit_or x y ≡ bit_or y x) refl
      (λ x y ih. omega (arith, or_halves x y, or_halves y x, ih))

twice_power : (q k : ℕ) → q * 2 ^ suc k ≡ q * 2 ^ k * 2
twice_power q k = omega (arith, ap (λ (t : ℕ). q * t) (pow-suc 2 k))

-- A number that is shifted past `k` digits meets only those above.
pub bit_or_shifted :
    (k x y r : ℕ) → r < 2 ^ k → bit_or (x * 2 ^ k + r) (y * 2 ^ k) ≡ bit_or x y * 2 ^ k + r
bit_or_shifted zero x y r h = ground arith
bit_or_shifted (suc k) x y r h = ground (
  arith,
  or_halves (x * 2 ^ suc k + r) (y * 2 ^ suc k),
  twice_power x k,
  twice_power y k,
  twice_power (bit_or x y) k,
  bit_or_shifted k x y (r / 2) (omega (arith, pow-suc 2 k)),
)

-- A single bit of a number.
pub bit_and-two_pow : (k x : ℕ) → bit_and (2 ^ k) x ≡ x / 2 ^ k % 2 * 2 ^ k
bit_and-two_pow zero x = omega (arith, and_halves 1 x, bit_and-bitwise 0 (x / 2))
bit_and-two_pow (suc k) x =
    let double : 2 ^ suc k ≡ 2 * 2 ^ k = omega (arith, pow-suc 2 k) in
    let half : 2 ^ suc k / 2 ≡ 2 ^ k = omega (arith, double) in
    let quotient : x / 2 ^ suc k ≡ x / 2 / 2 ^ k =
      ap (λ (t : ℕ). x / t) double ∙ sym (div-div-eq-div-mul x 2 (2 ^ k)) in
    rw quotient (
      omega (
        arith,
        and_halves (2 ^ suc k) x,
        ap (λ (t : ℕ). bit_and t (x / 2)) half,
        bit_and-two_pow k (x / 2),
        twice_power (x / 2 / 2 ^ k % 2) k,
        double,
      ))
