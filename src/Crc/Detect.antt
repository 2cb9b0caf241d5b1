-- ===== src/Crc/Detect.antt =====
-- Which changes of a file the checksum of bin_crc_make/src/main.c notices.
use Prim.Native.Nat.{bit_xor}
use linux_c_code.Base.{
  ℕ, zero, suc, ◌*◌, ◌/◌, ◌^◌, ◌<◌, ◌≤◌, ◌≡◌, ◌≢◌, sym, ap, ◌∙◌, List, [], ◌∷◌, ◌++◌, arith,
}
use linux_c_code.Crc.{crc32}
use linux_c_code.Crc.Xor.{
  bit_xor_assoc, bit_xor_comm, bit_xor_self, bit_xor-disjoint, bit_xor-zero, bit_xor-bound,
}
use linux_c_code.Crc.Bitwise.{
  polynomial, shift, shifts, bitwise_loop, bitwise_crc32, AreBytes, crc32_lem,
}
use linux_c_code.Crc.File.{loop-append, AreBytes-append}

bit_xor-twice : (a k : ℕ) → bit_xor (bit_xor a k) k ≡ a
bit_xor-twice a k = bit_xor_assoc a k k ∙ ap (bit_xor a) (bit_xor_self k) ∙ bit_xor-zero a

bit_xor_cancel : (k a b : ℕ) → bit_xor a k ≡ bit_xor b k → a ≡ b
bit_xor_cancel k a b e = sym (bit_xor-twice a k) ∙ ap (λ x. bit_xor x k) e ∙ bit_xor-twice b k

-- The division sets the highest bit exactly if the lowest was set.
top_bit : (m : ℕ) → m < 2 ^ 31 → 2 ^ 31 ≤ bit_xor m polynomial
top_bit m h =
    let low : ℕ = 0x6db88320 in
    let split : bit_xor (2 ^ 31 * 1) low ≡ polynomial = bit_xor-disjoint 31 1 low (omega arith) in
    let swap : bit_xor m polynomial ≡ bit_xor (2 ^ 31 * 1) (bit_xor m low) =
      ap (bit_xor m) (sym split)
      ∙ sym (bit_xor_assoc m (2 ^ 31 * 1) low)
      ∙ ap (λ x. bit_xor x low) (bit_xor_comm m (2 ^ 31 * 1))
      ∙ bit_xor_assoc (2 ^ 31 * 1) m low in
    omega
      (arith, swap, bit_xor-disjoint 31 1 (bit_xor m low) (bit_xor-bound 31 m low h (omega arith)))

shift-bound : (x : ℕ) → x < 2 ^ 32 → shift x < 2 ^ 32
unfolding shift
shift-bound x h = ground (arith, bit_xor-bound 32 (x / 2) polynomial (omega arith) (omega arith))

shift_inj : (x y : ℕ) → x < 2 ^ 32 → y < 2 ^ 32 → shift x ≡ shift y → x ≡ y
unfolding shift
shift_inj x y h k e = ground (
  arith,
  top_bit (x / 2) (omega arith),
  top_bit (y / 2) (omega arith),
  bit_xor_cancel polynomial (x / 2) (y / 2),
)

shifts-bound : (n x : ℕ) → x < 2 ^ 32 → shifts n x < 2 ^ 32
unfolding shifts
shifts-bound zero x h = h
shifts-bound (suc n) x h = shifts-bound n (shift x) (shift-bound x h)

shifts_inj : (n x y : ℕ) → x < 2 ^ 32 → y < 2 ^ 32 → shifts n x ≡ shifts n y → x ≡ y
unfolding shifts
shifts_inj zero x y h k e = e
shifts_inj (suc n) x y h k e =
    shift_inj x y h k (shifts_inj n (shift x) (shift y) (shift-bound x h) (shift-bound y k) e)

absorb-bound : (c b : ℕ) → c < 2 ^ 32 → b < 2 ^ 8 → shifts 8 (bit_xor c b) < 2 ^ 32
absorb-bound c b h k = shifts-bound 8 (bit_xor c b) (bit_xor-bound 32 c b h (omega arith))

bitwise_loop-bound : (bs : List ℕ) (c : ℕ) → AreBytes bs → c < 2 ^ 32 → bitwise_loop c bs < 2 ^ 32
unfolding bitwise_loop
bitwise_loop-bound [] c h k = k
bitwise_loop-bound (b ∷ bs) c h k =
    bitwise_loop-bound bs (shifts 8 (bit_xor c b)) h.1 (absorb-bound c b k h.0)

-- Different states stay different over the same bytes.
bitwise_loop_inj :
    (bs : List ℕ) (c d : ℕ)
    → AreBytes bs
    → c < 2 ^ 32
    → d < 2 ^ 32
    → bitwise_loop c bs ≡ bitwise_loop d bs
    → c ≡ d
unfolding bitwise_loop
bitwise_loop_inj [] c d h hc hd e = e
bitwise_loop_inj (b ∷ bs) c d h hc hd e = bit_xor_cancel b c d (
    shifts_inj 8 (bit_xor c b) (bit_xor d b) (bit_xor-bound 32 c b hc (byte b h.0))
      (bit_xor-bound 32 d b hd (byte b h.0))
      (bitwise_loop_inj bs (shifts 8 (bit_xor c b)) (shifts 8 (bit_xor d b)) h.1
        (absorb-bound c b hc h.0) (absorb-bound d b hd h.0) e))
  where
    byte : (b : ℕ) → b < 2 ^ 8 → b < 2 ^ 32
    byte b h = omega arith

crc32-split :
    (xs ys : List ℕ) (b : ℕ)
    → AreBytes xs
    → AreBytes ys
    → b < 2 ^ 8
    → crc32 (xs ++ (b ∷ ys))
      ≡ bit_xor (bitwise_loop (shifts 8 (bit_xor (bitwise_loop 0xffffffff xs) b)) ys) 0xffffffff
unfolding bitwise_crc32 bitwise_loop
crc32-split xs ys b hx hy hb =
    crc32_lem (xs ++ (b ∷ ys)) (AreBytes-append xs (b ∷ ys) hx (hb, hy))
    ∙ ap (λ x. bit_xor x 0xffffffff) (loop-append xs (b ∷ ys) 0xffffffff)

-- A file in which one byte is changed, and no other, has another checksum.
pub crc32-change :
    (xs ys : List ℕ) (b d : ℕ)
    → AreBytes xs
    → AreBytes ys
    → b < 2 ^ 8
    → d < 2 ^ 8
    → b ≢ d
    → crc32 (xs ++ (b ∷ ys)) ≢ crc32 (xs ++ (d ∷ ys))
crc32-change xs ys b d hx hy hb hd ne e =
    let ones : ℕ = 0xffffffff in
    let c = bitwise_loop ones xs in
    let hc : c < 2 ^ 32 = bitwise_loop-bound xs ones hx (omega arith) in
    let after : bitwise_loop (shifts 8 (bit_xor c b)) ys
        ≡ bitwise_loop (shifts 8 (bit_xor c d)) ys =
      bit_xor_cancel ones (bitwise_loop (shifts 8 (bit_xor c b)) ys)
        (bitwise_loop (shifts 8 (bit_xor c d)) ys)
        (sym (crc32-split xs ys b hx hy hb) ∙ e ∙ crc32-split xs ys d hx hy hd) in
    let same : bit_xor c b ≡ bit_xor c d =
      shifts_inj 8 (bit_xor c b) (bit_xor c d) (bit_xor-bound 32 c b hc (omega arith))
        (bit_xor-bound 32 c d hc (omega arith))
        (bitwise_loop_inj ys (shifts 8 (bit_xor c b)) (shifts 8 (bit_xor c d)) hy
          (absorb-bound c b hc hb) (absorb-bound c d hc hd) after) in
    ne (bit_xor_cancel c b d (bit_xor_comm b c ∙ same ∙ bit_xor_comm c d))
