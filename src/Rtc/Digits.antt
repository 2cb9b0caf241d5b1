-- ===== src/Rtc/Digits.antt =====
-- The conversions of mips_test/i2c_test.c between numbers and binary-coded decimals.
use linux_c_code.Base.{
  ℕ, zero, suc, ◌<◌, ◌≡◌, refl, Bool, true, false, ◌&&◌, ◌==◌, ltb, ◌%◌, ◌/◌, if◌then◌else◌, arith,
}
use linux_c_code.Rtc.{bcd_dec, dec_bcd}

-- A test holds for every number below `n`.
unfoldable pub holds_below : (ℕ → Bool) → ℕ → Bool
holds_below test zero = true
holds_below test (suc n) = let rest = holds_below test n in if test n then rest else false

holds_below-test : (test : ℕ → Bool) (n i : ℕ) → holds_below test n ≡ true → i < n → test i ≡ true
unfolding holds_below
holds_below-test test zero i h k = absurd (omega arith)
holds_below-test test (suc n) i h k = let ih = holds_below-test test n i in ground (arith, h, ih)

abbrev round_trip : ℕ → Bool
round_trip n = bcd_dec (dec_bcd n) == n

all_round_trips : holds_below round_trip 100 ≡ true
unfolding holds_below bcd_dec dec_bcd
all_round_trips = refl

pub bcd_dec-dec_bcd : (n : ℕ) → n < 100 → bcd_dec (dec_bcd n) ≡ n
bcd_dec-dec_bcd n h =
    let t = holds_below-test round_trip 100 n all_round_trips h in ground (arith, t)

-- Whether both halves of the byte are decimal digits.
abbrev pub is_bcd : ℕ → Bool
is_bcd b = ltb (b / 16) 10 && ltb (b % 16) 10

abbrev back : ℕ → Bool
back b = if is_bcd b then dec_bcd (bcd_dec b) == b else true

all_back : holds_below back 256 ≡ true
unfolding holds_below bcd_dec dec_bcd
all_back = refl

dec_bcd-bcd_dec : (b : ℕ) → b < 256 → is_bcd b ≡ true → dec_bcd (bcd_dec b) ≡ b
dec_bcd-bcd_dec b h d = let t = holds_below-test back 256 b all_back h in ground (arith, t, d)

-- `bcd_dec` and `dec_bcd` undo each other: a number of at most two digits is coded and read back, and
-- a byte whose halves are digits is read and coded back.
pub bcd_inverse :
    (n b : ℕ)
    → n < 100
    → b < 256
    → is_bcd b ≡ true
    → (bcd_dec (dec_bcd n) ≡ n) × (dec_bcd (bcd_dec b) ≡ b)
bcd_inverse n b h k d = (bcd_dec-dec_bcd n h, dec_bcd-bcd_dec b k d)
