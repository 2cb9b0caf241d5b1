-- ===== src/Timespec/Carry.antt =====
-- The carry of `make_timespec` in time/src/main.c.
use linux_c_code.Base.{
  ℕ, zero, suc, ◌+◌, ◌-◌, ◌*◌, ◌/◌, ◌%◌, ◌^◌, ◌<◌, ◌≤◌, ◌≡◌, refl, ◌∙◌, inl, inr, Bool-cases, leb,
  leb→le, some, arith,
}
use linux_c_code.Base.Int.{pos, ◌+ℤ◌, ◌-ℤ◌}
use linux_c_code.Timespec.{
  Timespec, to_uint64, get_abs_now, quotient, modulo, times, carry_seconds, make_timespec,
}

-- A time that is not before 1970.
abbrev pub at : ℕ → ℕ → Timespec
at s ns = record { tv_sec = pos s; tv_nsec = pos ns }

pos_add : (a b : ℕ) → pos a +ℤ pos b ≡ pos (a + b)
unfolding ◌+ℤ◌
pos_add a b = ground arith

pos_sub : (a b : ℕ) → b ≤ a → pos a -ℤ pos b ≡ pos (a - b)
unfolding ◌-ℤ◌
pos_sub a b h = ground arith

carry_seconds-more :
    (fuel s ns : ℕ)
    → 1_000_000_000 < ns
    → carry_seconds (suc fuel) (at s ns) ≡ carry_seconds fuel (at (s + 1) (ns - 1_000_000_000))
unfolding carry_seconds
carry_seconds-more fuel s ns h =
    rw (pos_add s 1, pos_sub ns 1_000_000_000 (omega (arith, h))) (ground (arith, h))

carry_seconds-done :
    (fuel s ns : ℕ) → ns ≤ 1_000_000_000 → carry_seconds (suc fuel) (at s ns) ≡ some (at s ns)
unfolding carry_seconds
carry_seconds-done fuel s ns h = ground (arith, h)

-- With a round more than there are seconds in the nanoseconds the loop ends; it keeps the time, and
-- leaves a second of nanoseconds at most.
pub carry_seconds_lem :
    (fuel s ns : ℕ)
    → ns / 1_000_000_000 < fuel
    → (sec nsec : ℕ) × (carry_seconds fuel (at s ns) ≡ some (at sec nsec))
      × (sec * 1_000_000_000 + nsec ≡ s * 1_000_000_000 + ns)
      × (nsec ≤ 1_000_000_000)
carry_seconds_lem zero s ns h = absurd (omega (arith, h))
carry_seconds_lem (suc fuel) s ns h = elim (Bool-cases (leb ns 1_000_000_000)) [
  | inl fits ↦
      let few = leb→le ns 1_000_000_000 fits in (s, ns, carry_seconds-done fuel s ns few, refl, few)
  | inr over ↦
      let many : 1_000_000_000 < ns = ground (arith, over) in
      let (sec, nsec, run, same, bound) =
        carry_seconds_lem fuel (s + 1) (ns - 1_000_000_000) (omega (arith, h, many)) in
      (sec, nsec, carry_seconds-more fuel s ns many ∙ run, omega (arith, same, many), bound)
]

abs_now-at :
    (s ns : ℕ)
    → s * 1000 + 1000 < 2 ^ 64
    → ns ≤ 1_000_000_000
    → get_abs_now (at s ns) ≡ (s * 1_000_000_000 + ns) / 1_000_000
unfolding get_abs_now to_uint64
abs_now-at s ns hs hn = omega (arith, hs, hn)

make_timespec-at :
    (s ns ms : ℕ)
    → make_timespec (at s ns) (pos ms)
      ≡ carry_seconds
          (suc ((ns + ms % 1000 * 1000 * 1000) / 1_000_000_000))
          (at (s + ms / 1000) (ns + ms % 1000 * 1000 * 1000))
unfolding make_timespec quotient modulo times
make_timespec-at s ns ms = rw (pos_add s (ms / 1000), pos_add ns (ms % 1000 * 1000 * 1000)) refl

-- From a clock after 1970 with less than a second of nanoseconds, and for a timeout of `ms`
-- milliseconds: if the sum in milliseconds stays below 2 ^ 63, `make_timespec` ends, what it writes is
-- the time of the clock and the timeout together, to the nanosecond, `_TIMER_getAbsNow` would read it
-- as `ms` milliseconds later, and its nanoseconds are at most 10 ^ 9, a full second included.
pub make_timespec_lem :
    (s ns ms : ℕ)
    → ns < 1_000_000_000
    → s * 1000 + ms < 2 ^ 63
    → (sec nsec : ℕ) × (make_timespec (at s ns) (pos ms) ≡ some (at sec nsec))
      × (sec * 1_000_000_000 + nsec ≡ s * 1_000_000_000 + ns + ms * 1_000_000)
      × (nsec ≤ 1_000_000_000)
      × (get_abs_now (at sec nsec) ≡ get_abs_now (at s ns) + ms)
make_timespec_lem s ns ms h small =
    let n = ns + ms % 1000 * 1000 * 1000 in
    let (sec, nsec, run, same, bound) =
      carry_seconds_lem (suc (n / 1_000_000_000)) (s + ms / 1000) n (omega arith) in
    let total : sec * 1_000_000_000 + nsec ≡ s * 1_000_000_000 + ns + ms * 1_000_000 =
      omega (arith, same) in
    (
      sec,
      nsec,
      make_timespec-at s ns ms ∙ run,
      total,
      bound,
      rw
          (
            abs_now-at sec nsec (omega (arith, total, small, bound)) bound,
            abs_now-at s ns (omega (arith, small)) (omega (arith, h)),
          )
          (omega (arith, total)),
    )
