-- ===== src/Eloop/Time.antt =====
-- Time values of eloop/src/eloop.c and eloop.h: `struct os_reltime`, its comparison and
-- difference, and the clock with its fallback order.
pub mod Order
pub mod Clock
use linux_c_code.Base.{
  ℕ, zero, suc, ◌+◌, ◌-◌, ◌/◌, ◌%◌, ◌^◌, Bool, true, false, ◌&&◌, ◌||◌, Option, none, some, ltb,
  if◌then◌else◌,
}
use linux_c_code.Base.Int.{ℤ, pos, negsuc, pos_part, neg_part, sub_ℕ, ◌+ℤ◌, ◌-ℤ◌, ltb_ℤ, ◌==ℤ◌}

-- `struct os_reltime`; `os_time_t` is a `long` of 64 bits.
pub record Reltime : Type 0 where
  pub sec : ℤ
  pub usec : ℤ

-- `os_reltime_before`
unfoldable pub before : Reltime → Reltime → Bool
before a b = ltb_ℤ a.sec b.sec || (a.sec ==ℤ b.sec && ltb_ℤ a.usec b.usec)

-- `os_reltime_sub`; the result goes through `*res`.
unfoldable pub sub : Reltime → Reltime → Reltime
sub a b =
    let sec = a.sec -ℤ b.sec in
    let usec = a.usec -ℤ b.usec in
    if ltb_ℤ usec (pos 0)
    then record { sec = sec -ℤ pos 1; usec = usec +ℤ pos 1_000_000 }
    else record { sec = sec; usec = usec }

-- A sum of two `long` values, wrapped to 64 bits.
unfoldable pub add_long : ℤ → ℤ → ℤ
add_long a b =
    let s = a +ℤ b in
    if ltb_ℤ s (negsuc (2 ^ 63 - 1))
    then s +ℤ pos (2 ^ 64)
    else (if ltb_ℤ (pos (2 ^ 63 - 1)) s then s -ℤ pos (2 ^ 64) else s)

-- `(int)n` of an `unsigned int`.
unfoldable pub to_int : ℕ → ℤ
to_int n = let w = n % 2 ^ 32 in if ltb w (2 ^ 31) then pos w else negsuc (2 ^ 32 - w - 1)

-- The clocks that `os_get_reltime` tries in turn.
pub data ClockId : Type 0 where
  boottime monotonic realtime : ClockId

-- `struct timespec`
pub record Timespec : Type 0 where
  pub tv_sec : ℤ
  pub tv_nsec : ℕ

abbrev pub of_timespec : Timespec → Reltime
of_timespec ts = record { sec = ts.tv_sec; usec = pos (ts.tv_nsec / 1000) }

-- The `switch` on `clock_id` after a failed read: the next clock to try.
pub fallback : ClockId → Option ClockId
fallback boottime = some monotonic
fallback monotonic = some realtime
fallback realtime = none

-- The `while (1)` of `os_get_reltime`. `gettime` is `clock_gettime`, with `none` for a result other
-- than 0. The result is what is written to `*t` (`none` for a return of -1) and the static
-- `clock_id`; an outer `none` means that the fuel ran out.
pub get_reltime_loop : ℕ → (ClockId → Option Timespec) → ClockId → Option (Option Reltime × ClockId)
unfolding fallback
get_reltime_loop zero gettime c = none
get_reltime_loop (suc k) gettime c = elim (gettime c) [
  | some ts ↦ some (some (of_timespec ts), c)
  | none ↦ elim (fallback c) [ none ↦ some (none, c) | some d ↦ get_reltime_loop k gettime d ]
]

-- `os_get_reltime` with its static `clock_id`, which starts as CLOCK_BOOTTIME.
pub get_reltime : (ClockId → Option Timespec) → ClockId → Option (Option Reltime × ClockId)
unfolding get_reltime_loop
get_reltime = get_reltime_loop 3
