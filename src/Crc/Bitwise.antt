-- ===== src/Crc/Bitwise.antt =====
-- The checksum of bin_crc_make/src/main.c by its definition: the division by the reflected
-- polynomial, one bit at a time, without a table.
use Prim.Native.Nat.{bit_and, bit_xor}
use linux_c_code.Base.{
  false, ℕ, zero, suc, ◌*◌, ◌/◌, ◌%◌, ◌^◌, ◌<◌, ◌≡◌, refl, sym, ap, ap₂, ◌∙◌, Bool, true, List, [],
  ◌∷◌, ◌==◌, ==_iff, arith, if◌then◌else◌,
}
use linux_c_code.Crc.{entry, round, crc_loop, crc32}
use linux_c_code.Crc.Xor.{
  bit_xor-half, bit_xor-parity, bit_xor_assoc, bit_xor_comm, bit_and_mask, bit_xor-shift,
  bit_xor-disjoint, bit_xor-zero,
}

-- The reflected polynomial of CRC-32.
abbrev pub polynomial : ℕ
polynomial = 0xedb88320

-- One bit of the division.
unfoldable pub shift : ℕ → ℕ
shift x = if x % 2 == 1 then bit_xor (x / 2) polynomial else x / 2

unfoldable pub shifts : ℕ → ℕ → ℕ
shifts zero x = x
shifts (suc n) x = shifts n (shift x)

-- The bytes go in one after the other, each with its eight bits.
unfoldable pub bitwise_loop : ℕ → List ℕ → ℕ
bitwise_loop crc [] = crc
bitwise_loop crc (b ∷ bs) = bitwise_loop (shifts 8 (bit_xor crc b)) bs

unfoldable pub bitwise_crc32 : List ℕ → ℕ
bitwise_crc32 bs = bit_xor (bitwise_loop 0xffffffff bs) 0xffffffff

-- Every element is a byte.
abbrev pub AreBytes : List ℕ → Type 0
AreBytes [] = Unit
AreBytes (b ∷ bs) = (b < 2 ^ 8) × AreBytes bs

-- An even part of the number only moves.
shift-even : (m l : ℕ) → shift (bit_xor (2 * m) l) ≡ bit_xor m (shift l)
unfolding shift
shift-even m l =
    let p : bit_xor (2 * m) l % 2 ≡ l % 2 = omega (arith, bit_xor-parity (2 * m) l) in
    let d : 2 * m / 2 ≡ m = omega arith in
    let q : bit_xor (2 * m) l / 2 ≡ bit_xor m (l / 2) =
      bit_xor-half (2 * m) l ∙ ap (λ x. bit_xor x (l / 2)) d in
    ground (arith, p, q, bit_xor_assoc m (l / 2) polynomial)

pub shifts-high : (n m l : ℕ) → shifts n (bit_xor (2 ^ n * m) l) ≡ bit_xor m (shifts n l)
unfolding shifts
shifts-high zero m l = ap (λ x. bit_xor x l) (omega arith)
shifts-high (suc n) m l =
    ap (λ x. shifts n (shift (bit_xor x l))) (twice n m)
    ∙ ap (shifts n) (shift-even (2 ^ n * m) l)
    ∙ shifts-high n m (shift l)
  where
    twice : (k h : ℕ) → 2 ^ suc k * h ≡ 2 * (2 ^ k * h)
    twice k h = grind arith

-- The test holds of every number below `n`.
unfoldable pub holds_to : (ℕ → Bool) → ℕ → Bool
holds_to p zero = true
holds_to p (suc n) = if p n then holds_to p n else false

pub holds_to_lem : (p : ℕ → Bool) (n x : ℕ) → holds_to p n ≡ true → x < n → p x ≡ true
unfolding holds_to
holds_to_lem p zero x h lt = absurd (omega arith)
holds_to_lem p (suc n) x h lt = ground (arith, holds_to_lem p n x)

table : holds_to (λ x. entry x == shifts 8 x) 256 ≡ true
unfolding holds_to entry shifts shift
table = refl

-- Each entry of the table is the division of its index.
pub entry-shifts : (x : ℕ) → x < 2 ^ 8 → entry x ≡ shifts 8 x
entry-shifts x h =
    (==_iff (entry x) (shifts 8 x)).0 (holds_to_lem (λ y. entry y == shifts 8 y) 256 x table h)

pub round-shifts : (crc b : ℕ) → b < 2 ^ 8 → round crc b ≡ shifts 8 (bit_xor crc b)
unfolding round
round-shifts crc b h =
    let x = bit_xor crc b in
    let low : entry (bit_and x 0xff) ≡ shifts 8 (x % 2 ^ 8) =
      ap entry (bit_and_mask x) ∙ entry-shifts (x % 2 ^ 8) (omega arith) in
    let z : b / 2 ^ 8 ≡ 0 = omega arith in
    let high : x / 2 ^ 8 ≡ crc / 2 ^ 8 =
      bit_xor-shift crc b ∙ ap (λ y. bit_xor (crc / 2 ^ 8) y) z ∙ bit_xor-zero (crc / 2 ^ 8) in
    let split : bit_xor (2 ^ 8 * (x / 2 ^ 8)) (x % 2 ^ 8) ≡ x =
      bit_xor-disjoint 8 (x / 2 ^ 8) (x % 2 ^ 8) (omega arith) ∙ omega arith in
    ap₂ bit_xor low (sym high)
    ∙ bit_xor_comm (shifts 8 (x % 2 ^ 8)) (x / 2 ^ 8)
    ∙ sym (shifts-high 8 (x / 2 ^ 8) (x % 2 ^ 8))
    ∙ ap (shifts 8) split

pub loop-bitwise : (crc : ℕ) (bs : List ℕ) → AreBytes bs → crc_loop crc bs ≡ bitwise_loop crc bs
unfolding crc_loop bitwise_loop
loop-bitwise crc [] h = refl
loop-bitwise crc (b ∷ bs) h =
    ap (λ x. crc_loop x bs) (round-shifts crc b h.0)
    ∙ loop-bitwise (shifts 8 (bit_xor crc b)) bs h.1

-- `crc32` with its table computes the reflected CRC-32 of the polynomial 0xedb88320, bit by bit, with
-- all ones before and inverted after, of every sequence of bytes.
pub crc32_lem : (bs : List ℕ) → AreBytes bs → crc32 bs ≡ bitwise_crc32 bs
unfolding crc32 bitwise_crc32
crc32_lem bs h = ap (λ x. bit_xor x 0xffffffff) (loop-bitwise 0xffffffff bs h)
