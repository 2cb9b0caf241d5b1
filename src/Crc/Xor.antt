-- ===== src/Crc/Xor.antt =====
-- Laws of `bit_xor` and `bit_and`, on which the table-driven checksum of bin_crc_make/src/main.c
-- rests.
use Prim.Native.Nat.{bit_and, bit_xor, digits, differ, bit_and-bitwise, bit_xor-bitwise}
use linux_c_code.Base.{
  ℕ, zero, suc, ◌+◌, ◌*◌, ◌/◌, ◌%◌, ◌^◌, ◌-◌, ◌≤◌, ◌<◌, min, ◌≡◌, refl, sym, ap, ap₂, ◌∙◌, arith,
}

-- The recursion on digits with more rounds than the number has, or one round less.
module _ (last : ℕ → ℕ) (digit : ℕ → ℕ → ℕ) where
  spare_round : (n a b : ℕ) → a ≤ n → digits last digit (suc n) a b ≡ digits last digit n a b
  spare_round zero zero b h = refl
  spare_round (suc n) zero b h = refl
  spare_round zero (suc a) b h = absurd (omega arith)
  spare_round (suc n) (suc a) b h =
      ap (λ x. x * 2 + digit (suc a % 2) (b % 2)) (spare_round n (suc a / 2) (b / 2) (omega arith))

  spare_rounds : (d n a b : ℕ) → n ≡ d + a → digits last digit n a b ≡ digits last digit a a b
  spare_rounds zero n a b h = ap (λ m. digits last digit m a b) (h ∙ omega arith)
  spare_rounds (suc d) n a b h =
      let whole : n ≡ suc (d + a) = omega arith in
      ap (λ m. digits last digit m a b) whole
      ∙ spare_round (d + a) a b (omega arith)
      ∙ spare_rounds d (d + a) a b refl

  half_rounds :
      (a b : ℕ)
      → digits last digit a (suc a / 2) (b / 2) ≡ digits last digit (suc a / 2) (suc a / 2) (b / 2)
  half_rounds a b = spare_rounds (a - suc a / 2) a (suc a / 2) (b / 2) (omega arith)

differ_sum : (x y : ℕ) → x < 2 → y < 2 → differ x y ≡ (x + y) % 2
differ_sum zero zero h k = refl
differ_sum zero (suc zero) h k = refl
differ_sum (suc zero) zero h k = refl
differ_sum (suc zero) (suc zero) h k = refl
differ_sum _ (suc (suc y)) h k = absurd (omega arith)
differ_sum (suc (suc x)) _ h k = absurd (omega arith)

pub zero-bit_xor : (b : ℕ) → bit_xor 0 b ≡ b
zero-bit_xor b = bit_xor-bitwise 0 b

-- The lowest digit apart from the rest.
pub bit_xor_step : (a b : ℕ) → bit_xor a b ≡ bit_xor (a / 2) (b / 2) * 2 + (a % 2 + b % 2) % 2
bit_xor_step zero b = omega (arith, zero-bit_xor (b / 2), zero-bit_xor b)
bit_xor_step (suc a) b =
    let low = differ_sum (suc a % 2) (b % 2) (omega arith) (omega arith) in
    omega (
      arith,
      low,
      half_rounds (λ y. y) differ a b,
      bit_xor-bitwise (suc a / 2) (b / 2),
      bit_xor-bitwise (suc a) b,
    )

pub bit_xor-half : (a b : ℕ) → bit_xor a b / 2 ≡ bit_xor (a / 2) (b / 2)
bit_xor-half a b = omega (arith, bit_xor_step a b)

pub bit_xor-parity : (a b : ℕ) → bit_xor a b % 2 ≡ (a % 2 + b % 2) % 2
bit_xor-parity a b = omega (arith, bit_xor_step a b)

-- Two numbers with the same half and the same parity are the same.
halves : (a b : ℕ) → a / 2 ≡ b / 2 → a % 2 ≡ b % 2 → a ≡ b
halves a b h k = omega arith

bit_xor_comm_fuel : (n a b : ℕ) → a + b ≤ n → bit_xor a b ≡ bit_xor b a
bit_xor_comm_fuel zero a b h =
    let p : a ≡ 0 = omega arith in let q : b ≡ 0 = omega arith in rw p (rw q refl)
bit_xor_comm_fuel (suc n) zero zero h = refl
bit_xor_comm_fuel (suc n) zero (suc b) h = omega (
  arith,
  bit_xor_step 0 (suc b),
  bit_xor_step (suc b) 0,
  bit_xor_comm_fuel n 0 (suc b / 2) (omega arith),
)
bit_xor_comm_fuel (suc n) (suc a) b h = omega (
  arith,
  bit_xor_step (suc a) b,
  bit_xor_step b (suc a),
  bit_xor_comm_fuel n (suc a / 2) (b / 2) (omega arith),
)

pub bit_xor_comm : (a b : ℕ) → bit_xor a b ≡ bit_xor b a
bit_xor_comm a b = bit_xor_comm_fuel (a + b) a b (omega arith)

pub bit_xor-zero : (a : ℕ) → bit_xor a 0 ≡ a
bit_xor-zero a = bit_xor_comm a 0 ∙ zero-bit_xor a

bit_xor_assoc_fuel :
    (n a b c : ℕ) → a + b + c ≤ n → bit_xor (bit_xor a b) c ≡ bit_xor a (bit_xor b c)
bit_xor_assoc_fuel zero a b c h =
    let p : a ≡ 0 = omega arith in
    let q : b ≡ 0 = omega arith in let r : c ≡ 0 = omega arith in rw p (rw q (rw r refl))
bit_xor_assoc_fuel (suc n) a b c h =
    halves (bit_xor (bit_xor a b) c) (bit_xor a (bit_xor b c))
      (bit_xor-half (bit_xor a b) c
        ∙ ap (λ x. bit_xor x (c / 2)) (bit_xor-half a b)
        ∙ bit_xor_assoc_fuel n (a / 2) (b / 2) (c / 2) (omega arith)
        ∙ ap (λ x. bit_xor (a / 2) x) (sym (bit_xor-half b c))
        ∙ sym (bit_xor-half a (bit_xor b c)))
      (omega (
        arith,
        bit_xor-parity (bit_xor a b) c,
        bit_xor-parity a b,
        bit_xor-parity a (bit_xor b c),
        bit_xor-parity b c,
      ))

pub bit_xor_assoc : (a b c : ℕ) → bit_xor (bit_xor a b) c ≡ bit_xor a (bit_xor b c)
bit_xor_assoc a b c = bit_xor_assoc_fuel (a + b + c) a b c (omega arith)

bit_xor_self_fuel : (n a : ℕ) → a ≤ n → bit_xor a a ≡ 0
bit_xor_self_fuel n zero h = refl
bit_xor_self_fuel zero (suc a) h = absurd (omega arith)
bit_xor_self_fuel (suc n) (suc a) h =
    omega (arith, bit_xor_step (suc a) (suc a), bit_xor_self_fuel n (suc a / 2) (omega arith))

pub bit_xor_self : (a : ℕ) → bit_xor a a ≡ 0
bit_xor_self a = bit_xor_self_fuel a a (omega arith)

twice_pow : (k h : ℕ) → 2 ^ suc k * h ≡ 2 * (2 ^ k * h)
twice_pow k h = grind arith

half_pow : (k h : ℕ) → 2 ^ suc k * h / 2 ≡ 2 ^ k * h
half_pow k h = omega (arith, twice_pow k h)

half-bound : (k l : ℕ) → l < 2 ^ suc k → l / 2 < 2 ^ k
half-bound k l h = omega arith

-- Numbers without a common digit are added.
pub bit_xor-disjoint : (k h l : ℕ) → l < 2 ^ k → bit_xor (2 ^ k * h) l ≡ 2 ^ k * h + l
bit_xor-disjoint zero h l lt = let z : l ≡ 0 = omega arith in rw z (bit_xor-zero _ ∙ omega arith)
bit_xor-disjoint (suc k) h l lt = omega (
  arith,
  twice_pow k h,
  bit_xor_step (2 ^ suc k * h) l,
  bit_xor-disjoint k h (l / 2) (half-bound k l lt),
  ap (λ x. bit_xor x (l / 2)) (half_pow k h),
)

pub bit_xor-bound : (k a b : ℕ) → a < 2 ^ k → b < 2 ^ k → bit_xor a b < 2 ^ k
bit_xor-bound zero a b ha hb =
    let p : a ≡ 0 = omega arith in let q : b ≡ 0 = omega arith in rw p (rw q (omega arith))
bit_xor-bound (suc k) a b ha hb = omega (
  arith,
  bit_xor_step a b,
  bit_xor-bound k (a / 2) (b / 2) (half-bound k a ha) (half-bound k b hb),
)

eight_halves : (x : ℕ) → x / 2 / 2 / 2 / 2 / 2 / 2 / 2 / 2 ≡ x / 2 ^ 8
eight_halves x = omega arith

pub bit_xor-shift : (a b : ℕ) → bit_xor a b / 2 ^ 8 ≡ bit_xor (a / 2 ^ 8) (b / 2 ^ 8)
bit_xor-shift a b = omega (
  arith,
  bit_xor-half a b,
  bit_xor-half (a / 2) (b / 2),
  bit_xor-half (a / 2 / 2) (b / 2 / 2),
  bit_xor-half (a / 2 / 2 / 2) (b / 2 / 2 / 2),
  bit_xor-half (a / 2 / 2 / 2 / 2) (b / 2 / 2 / 2 / 2),
  bit_xor-half (a / 2 / 2 / 2 / 2 / 2) (b / 2 / 2 / 2 / 2 / 2),
  bit_xor-half (a / 2 / 2 / 2 / 2 / 2 / 2) (b / 2 / 2 / 2 / 2 / 2 / 2),
  bit_xor-half (a / 2 / 2 / 2 / 2 / 2 / 2 / 2) (b / 2 / 2 / 2 / 2 / 2 / 2 / 2),
  ap₂ bit_xor (eight_halves a) (eight_halves b),
)

low_digit :
    (x y : ℕ) → bit_and (suc x) y ≡ min (suc x % 2) (y % 2) + bit_and (suc x / 2) (y / 2) * 2
low_digit x y = omega (
  arith,
  bit_and-bitwise (suc x / 2) (y / 2),
  half_rounds (λ k. 0) min x y,
  bit_and-bitwise (suc x) y,
)

bit_and-zero : (rounds x : ℕ) → x ≤ rounds → bit_and x 0 ≡ 0
bit_and-zero rounds zero h = refl
bit_and-zero zero (suc x) h = absurd (omega arith)
bit_and-zero (suc k) (suc x) h =
    omega (arith, bit_and-zero k (suc x / 2) (omega arith), low_digit x 0)

mask_step : (x m : ℕ) → bit_and x (2 * m + 1) ≡ bit_and (x / 2) m * 2 + x % 2
mask_step zero m = omega (arith, bit_and-bitwise 0 m, bit_and-bitwise 0 (2 * m + 1))
mask_step (suc x) m =
    let half : (2 * m + 1) / 2 ≡ m = omega arith in
    omega (arith, low_digit x (2 * m + 1), ap (bit_and (suc x / 2)) half)

-- Eight ones keep the lowest eight digits.
pub bit_and_mask : (x : ℕ) → bit_and x 0xff ≡ x % 2 ^ 8
bit_and_mask x = omega (
  arith,
  mask_step (x) 127,
  mask_step (x / 2) 63,
  mask_step (x / 2 / 2) 31,
  mask_step (x / 2 / 2 / 2) 15,
  mask_step (x / 2 / 2 / 2 / 2) 7,
  mask_step (x / 2 / 2 / 2 / 2 / 2) 3,
  mask_step (x / 2 / 2 / 2 / 2 / 2 / 2) 1,
  mask_step (x / 2 / 2 / 2 / 2 / 2 / 2 / 2) 0,
  bit_and-zero x (x / 2 / 2 / 2 / 2 / 2 / 2 / 2 / 2) (omega arith),
)
