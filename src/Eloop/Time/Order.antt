-- ===== src/Eloop/Time/Order.antt =====
-- The order of `os_reltime_before` and the difference of `os_reltime_sub` in eloop/src/eloop.c.
use linux_c_code.Base.{ℕ, ◌+◌, ◌*◌, ◌<◌, ◌≡◌, true, false, arith}
use linux_c_code.Base.Int.{pos, pos_part, neg_part, ◌+ℤ◌, ◌-ℤ◌, ◌≤ℤ◌, ltb_ℤ}
use linux_c_code.Eloop.Time.{Reltime, before, sub}

-- A time in normal form: what `os_get_reltime` and the loop of `eloop_register_timeout` produce.
pub record IsNormal (t : Reltime) : Type 0 where
  pub nonneg : pos 0 ≤ℤ t.usec
  pub small : pos_part t.usec < 1_000_000

-- No time is before itself.
pub before_irrefl : (a : Reltime) → before a a ≡ false
unfolding before
before_irrefl a = ground arith

pub before_trans : (a b c : Reltime) → before a b ≡ true → before b c ≡ true → before a c ≡ true
unfolding before
before_trans a b c h k = ground arith

-- Not before is transitive as well.
pub not_before_trans :
    (a b c : Reltime) → before b a ≡ false → before c b ≡ false → before c a ≡ false
unfolding before
not_before_trans a b c h k = ground arith

pub before-asymm : (a b : Reltime) → before a b ≡ true → before b a ≡ false
unfolding before
before-asymm a b h = ground arith

before-connected : (a b : Reltime) → before a b ≡ false → before b a ≡ false → a ≡ b
unfolding before
before-connected a b h k = ground arith

-- `os_reltime_before` is a strict total order: no time is before itself, the relation is
-- transitive, and two times of which neither is before the other are equal.
pub before-order :
    (a b c : Reltime)
    → (before a a ≡ false)
      × (before a b ≡ true → before b c ≡ true → before a c ≡ true)
      × (before a b ≡ false → before b a ≡ false → a ≡ b)
before-order a b c = (before_irrefl a, before_trans a b c, before-connected a b)

-- A time in microseconds, its positive and its negative part.
abbrev pub micros_pos : Reltime → ℕ
micros_pos t = pos_part t.sec * 1_000_000 + pos_part t.usec

abbrev pub micros_neg : Reltime → ℕ
micros_neg t = neg_part t.sec * 1_000_000 + neg_part t.usec

-- `d` is the time from `b` to `a`.
abbrev pub Elapsed : Reltime → Reltime → Reltime → Type 0
Elapsed a b d =
    micros_pos d + micros_pos b + micros_neg a ≡ micros_neg d + micros_neg b + micros_pos a

sub_exact : (a b : Reltime) → Elapsed a b (sub a b)
unfolding sub ◌+ℤ◌ ◌-ℤ◌
sub_exact a b = ground arith

sub-IsNormal : (a b : Reltime) → IsNormal a → IsNormal b → IsNormal (sub a b)
unfolding sub ◌+ℤ◌ ◌-ℤ◌
sub-IsNormal a b ha hb = ground arith

before-sub : (a b : Reltime) → IsNormal a → IsNormal b → before a b ≡ ltb_ℤ (sub a b).sec (pos 0)
unfolding sub before ◌+ℤ◌ ◌-ℤ◌
before-sub a b ha hb = ground arith

-- On times in normal form `os_reltime_sub` returns the exact time from `b` to `a`, again in normal
-- form; it is negative exactly when `a` is before `b`.
pub sub-Elapsed :
    (a b : Reltime)
    → IsNormal a
    → IsNormal b
    → Elapsed a b (sub a b) × IsNormal (sub a b) × (before a b ≡ ltb_ℤ (sub a b).sec (pos 0))
sub-Elapsed a b ha hb = (sub_exact a b, sub-IsNormal a b ha hb, before-sub a b ha hb)

pub before-not_before :
    (a b c : Reltime) → before a b ≡ true → before c b ≡ false → before a c ≡ true
unfolding before
before-not_before a b c h k = ground arith
