-- ===== src/Crc/File.antt =====
-- The file that `main` of bin_crc_make/src/main.c writes: the input and its checksum.
use Prim.Native.Nat.{bit_and, bit_xor}
use mathlib.Core.List.{append-nil}
use linux_c_code.Base.{
  ℕ, zero, suc, ◌*◌, ◌/◌, ◌%◌, ◌^◌, ◌<◌, ◌≡◌, refl, sym, ap, ap₂, ◌∙◌, true, some, List, [], ◌∷◌,
  ◌++◌, arith, length, take, drop, ltb, ltb→lt,
}
use linux_c_code.Base.Slices.{take-of_length_le}
use linux_c_code.Crc.{
  crc32, crc_buff, written, System, read_buff, write_output, main, entry, round, crc_loop,
}
use linux_c_code.Crc.Xor.{
  bit_xor_assoc, bit_xor_comm, bit_xor_self, bit_xor-disjoint, bit_xor-zero, zero-bit_xor,
  bit_and_mask, bit_xor-bound,
}
use linux_c_code.Crc.Bitwise.{
  shift, shifts, shifts-high, bitwise_loop, bitwise_crc32, AreBytes, crc32_lem, loop-bitwise,
  holds_to, holds_to_lem,
}

entry_table : holds_to (λ x. ltb (entry x) (2 ^ 32)) 256 ≡ true
unfolding holds_to entry
entry_table = refl

entry-bound : (x : ℕ) → entry (bit_and x 0xff) < 2 ^ 32
entry-bound x =
    let low : bit_and x 0xff < 256 = omega (arith, bit_and_mask x) in
    ltb→lt _ _ (holds_to_lem (λ y. ltb (entry y) (2 ^ 32)) 256 (bit_and x 0xff) entry_table low)

-- The state of the checksum is a word of 32 bits.
loop-bound : (bs : List ℕ) (crc : ℕ) → crc < 2 ^ 32 → crc_loop crc bs < 2 ^ 32
unfolding crc_loop round
loop-bound [] crc h = h
loop-bound (b ∷ bs) crc h = loop-bound bs (round crc b) (
    bit_xor-bound 32 (entry (bit_and (bit_xor crc b) 0xff)) (crc / 2 ^ 8)
      (entry-bound (bit_xor crc b)) (omega arith))

-- A whole word goes in like its lowest byte, and the rest joins the next state.
absorb : (c w : ℕ) → shifts 8 (bit_xor c w) ≡ bit_xor (shifts 8 (bit_xor c (w % 2 ^ 8))) (w / 2 ^ 8)
absorb c w =
    let split : bit_xor (2 ^ 8 * (w / 2 ^ 8)) (w % 2 ^ 8) ≡ w =
      bit_xor-disjoint 8 (w / 2 ^ 8) (w % 2 ^ 8) (omega arith) ∙ omega arith in
    ap (λ x. shifts 8 (bit_xor c x)) (sym split)
    ∙ ap (shifts 8) (swap c (2 ^ 8 * (w / 2 ^ 8)) (w % 2 ^ 8))
    ∙ shifts-high 8 (w / 2 ^ 8) (bit_xor c (w % 2 ^ 8))
    ∙ bit_xor_comm (w / 2 ^ 8) (shifts 8 (bit_xor c (w % 2 ^ 8)))
  where
    swap : (c h l : ℕ) → bit_xor c (bit_xor h l) ≡ bit_xor h (bit_xor c l)
    swap c h l =
        sym (bit_xor_assoc c h l) ∙ ap (λ x. bit_xor x l) (bit_xor_comm c h) ∙ bit_xor_assoc h c l

-- The four bytes of a word, least significant first, go in like the word itself.
absorb_word :
    (c w : ℕ)
    → w < 2 ^ 32
    → bitwise_loop c (crc_buff w) ≡ shifts 8 (shifts 8 (shifts 8 (shifts 8 (bit_xor c w))))
unfolding bitwise_loop crc_buff
absorb_word c w h =
    let c1 = shifts 8 (bit_xor c (w % 2 ^ 8)) in
    let w1 = w / 2 ^ 8 in
    let c2 = shifts 8 (bit_xor c1 (w1 % 2 ^ 8)) in
    let w2 = w1 / 2 ^ 8 in
    let c3 = shifts 8 (bit_xor c2 (w2 % 2 ^ 8)) in
    let w3 = w2 / 2 ^ 8 in
    let c4 = shifts 8 (bit_xor c3 (w3 % 2 ^ 8)) in
    let e2 : w / 2 ^ 16 ≡ w2 = omega arith in
    let e3 : w / 2 ^ 24 ≡ w3 = omega arith in
    let e4 : w3 / 2 ^ 8 ≡ 0 = omega arith in
    let all : shifts 8 (shifts 8 (shifts 8 (shifts 8 (bit_xor c w)))) ≡ c4 =
      ap (λ x. shifts 8 (shifts 8 (shifts 8 x))) (absorb c w)
      ∙ ap (λ x. shifts 8 (shifts 8 x)) (absorb c1 w1)
      ∙ ap (shifts 8) (absorb c2 w2)
      ∙ absorb c3 w3
      ∙ ap (bit_xor c4) e4
      ∙ bit_xor-zero c4 in
    ap₂ (λ x y. shifts 8 (bit_xor (shifts 8 (bit_xor c2 (x % 2 ^ 8))) (y % 2 ^ 8))) e2 e3 ∙ sym all

pub loop-append :
    (xs ys : List ℕ) (c : ℕ) → bitwise_loop c (xs ++ ys) ≡ bitwise_loop (bitwise_loop c xs) ys
unfolding bitwise_loop
loop-append [] ys c = refl
loop-append (x ∷ xs) ys c = loop-append xs ys (shifts 8 (bit_xor c x))

-- The checksum of a file that ends with its own checksum.
abbrev pub residue : ℕ
residue = 0x2144df1c

residue_run : bit_xor (shifts 8 (shifts 8 (shifts 8 (shifts 8 0xffffffff)))) 0xffffffff ≡ residue
unfolding shifts shift
residue_run = refl

pub AreBytes-append : (xs ys : List ℕ) → AreBytes xs → AreBytes ys → AreBytes (xs ++ ys)
AreBytes-append [] ys h k = k
AreBytes-append (x ∷ xs) ys h k = (h.0, AreBytes-append xs ys h.1 k)

crc_buff-AreBytes : (w : ℕ) → AreBytes (crc_buff w)
unfolding crc_buff
crc_buff-AreBytes w = (omega arith, (omega arith, (omega arith, (omega arith, tt))))

-- Whatever the file holds, the file followed by the four bytes of its checksum, least significant
-- first, has the checksum 0x2144df1c: a reader can check the file that the program writes without
-- knowing where the checksum begins.
pub crc32-append : (bs : List ℕ) → AreBytes bs → crc32 (bs ++ crc_buff (crc32 bs)) ≡ residue
unfolding crc32
crc32-append bs h =
    let ones : ℕ = 0xffffffff in
    let c = crc_loop ones bs in
    let w = bit_xor c ones in
    let bound : w < 2 ^ 32 =
      bit_xor-bound 32 c ones (loop-bound bs ones (omega arith)) (omega arith) in
    let all : AreBytes (bs ++ crc_buff w) =
      AreBytes-append bs (crc_buff w) h (crc_buff-AreBytes w) in
    let cancel : bit_xor c w ≡ ones =
      sym (bit_xor_assoc c c ones)
      ∙ ap (λ x. bit_xor x ones) (bit_xor_self c)
      ∙ zero-bit_xor ones in
    ap (λ x. bit_xor x ones)
      (loop-bitwise ones (bs ++ crc_buff w) all
        ∙ loop-append bs (crc_buff w) ones
        ∙ ap (λ x. bitwise_loop x (crc_buff w)) (sym (loop-bitwise ones bs h))
        ∙ absorb_word c w bound
        ∙ ap (λ x. shifts 8 (shifts 8 (shifts 8 (shifts 8 x)))) cancel)
    ∙ residue_run

drop_all : (n : ℕ) (xs : List ℕ) → drop n (take n xs) ≡ []
drop_all zero xs = refl
drop_all (suc n) [] = refl
drop_all (suc n) (x ∷ xs) = drop_all n xs

read_whole : (memory bs : List ℕ) → read_buff (length bs) memory bs ≡ bs
unfolding read_buff
read_whole memory bs =
    let whole : take (length bs) bs ≡ bs = take-of_length_le (length bs) bs (omega arith) in
    rw whole (rw (drop_all (length bs) memory) (append-nil bs))

-- If the file has less than 2 ^ 31 bytes and keeps its size, and every call of the C library succeeds, then `main` writes the bytes
-- of the file followed by those of its checksum, under the name of the checksum, which is the CRC-32
-- computed bit by bit.
pub main_lem :
    (s : System) (bs : List ℕ)
    → AreBytes bs
    → length bs < 2 ^ 31
    → s.size ≡ some (length bs)
    → s.contents ≡ some bs
    → s.created ≡ true
    → s.first_write ≡ length bs
    → s.second_write ≡ 4
    → main s ≡ written (bitwise_crc32 bs) (bs ++ crc_buff (bitwise_crc32 bs))
unfolding main write_output
main_lem s bs h small size contents created first second =
    let word : length bs % 2 ^ 32 ≡ length bs = omega (arith, small) in
    ground (
      arith,
      small,
      word,
      read_whole s.memory bs,
      crc32_lem bs h,
      take-of_length_le (length bs) bs (omega arith),
    )
