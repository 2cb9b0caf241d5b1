-- ===== src/Timespec.antt =====
-- time/src/main.c: the clock in milliseconds, and the time a number of milliseconds from now. The answer
-- of clock_gettime is an argument. Sums of `long` values are exact: the C sums are the same as long as
-- they stay inside of 64 bits, beyond which C says nothing of them.
mod Carry
mod Tests
use linux_c_code.Base.{
  ℕ, zero, suc, ◌+◌, ◌-◌, ◌*◌, ◌/◌, ◌%◌, ◌^◌, Option, none, some, if◌then◌else◌,
}
use linux_c_code.Base.Int.{ℤ, pos, negsuc, pos_part, sub_ℕ, ltb_ℤ, ◌+ℤ◌, ◌-ℤ◌}

-- `struct timespec`, with two fields of type `long`.
pub record Timespec : Type 0 where
  pub tv_sec : ℤ
  pub tv_nsec : ℤ

-- A `long` in a `uint64_t`.
unfoldable pub to_uint64 : ℤ → ℕ
to_uint64 (pos n) = n % 2 ^ 64
to_uint64 (negsuc n) = 2 ^ 64 - 1 - n % 2 ^ 64

-- `_TIMER_getAbsNow`
unfoldable pub get_abs_now : (now : Timespec) → ℕ
get_abs_now now =
    let s = to_uint64 now.tv_sec in
    let ns = to_uint64 now.tv_nsec in
    let ms_from_ns = ns / (1000 * 1000) in
    let ms_from_s = s * 1000 % 2 ^ 64 in (ms_from_ns + ms_from_s) % 2 ^ 64

-- `/` and `%` of C, which round towards zero, by a constant.
unfoldable pub quotient : ℤ → ℕ → ℤ
quotient (pos n) k = pos (n / k)
quotient (negsuc n) k = sub_ℕ 0 (suc n / k)

unfoldable pub modulo : ℤ → ℕ → ℤ
modulo (pos n) k = pos (n % k)
modulo (negsuc n) k = sub_ℕ 0 (suc n % k)

-- A `long` times a constant.
unfoldable pub times : ℤ → ℕ → ℤ
times (pos n) k = pos (n * k)
times (negsuc n) k = sub_ℕ 0 (suc n * k)

-- The `while` that carries nanoseconds into seconds; `none` when the fuel runs out.
unfoldable pub carry_seconds : (fuel : ℕ) → Timespec → Option Timespec
carry_seconds zero tv = none
carry_seconds (suc fuel) tv =
    let more =
      carry_seconds fuel (record {
        tv_sec = tv.tv_sec +ℤ pos 1;
        tv_nsec = tv.tv_nsec -ℤ pos (1000 * 1000 * 1000);
      }) in
    if ltb_ℤ (pos (1000 * 1000 * 1000)) tv.tv_nsec then more else some tv

-- `make_timespec`: what it writes to `*tv`. Every round of the loop takes a second away, so that one
-- round more than there are seconds is enough.
unfoldable pub make_timespec : (now : Timespec) → (timeout : ℤ) → Option Timespec
make_timespec now timeout =
    let r = times (times (modulo timeout 1000) 1000) 1000 in
    let nsec = now.tv_nsec +ℤ r in
    carry_seconds (suc (pos_part nsec / (1000 * 1000 * 1000)))
      (record { tv_sec = now.tv_sec +ℤ quotient timeout 1000; tv_nsec = nsec })
