-- ===== src/Eloop/Time/Clock.antt =====
-- Which clock `os_get_reltime` reads.
use linux_c_code.Base.{◌≡◌, Option, none, some, arith}
use linux_c_code.Eloop.Time.{
  Reltime, Timespec, ClockId, boottime, monotonic, realtime, of_timespec, get_reltime,
}

-- The first clock that answers, in the order of the fallbacks.
abbrev pub first_answer : (ClockId → Option Timespec) → Option Reltime × ClockId
first_answer gettime = elim (gettime boottime) [
  | some ts ↦ (some (of_timespec ts), boottime)
  | none ↦ elim (gettime monotonic) [
    | some ts ↦ (some (of_timespec ts), monotonic)
    | none ↦ elim (gettime realtime) [
      | some ts ↦ (some (of_timespec ts), realtime)
      | none ↦ (none, realtime)
    ]
  ]
]

-- `os_get_reltime` with its initial `clock_id` always returns. It reads the boot-time clock, then the
-- monotonic one, then the real-time one, takes the first that answers and remembers it; if none
-- does, it returns -1.
pub get_reltime_lem :
    (gettime : ClockId → Option Timespec)
    → get_reltime gettime boottime ≡ some (first_answer gettime)
unfolding get_reltime
get_reltime_lem gettime = ground arith
