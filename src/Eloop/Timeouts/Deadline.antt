-- ===== src/Eloop/Timeouts/Deadline.antt =====
-- When a timeout of eloop/src/eloop.c falls due.
use linux_c_code.Base.{
  ℕ, zero, suc, ◌+◌, ◌-◌, ltb, ltb→lt, ◌*◌, ◌/◌, ◌%◌, ◌^◌, ◌≤◌, ◌<◌, ◌≡◌, ap₂, ◌∙◌, true, false,
  none, some, arith, Bool-cases, inl, inr,
}
use linux_c_code.Base.Int.{ℤ, pos, pos_part, neg_part, ltb_ℤ, ◌+ℤ◌, ◌-ℤ◌}
use linux_c_code.Eloop.Time.{Reltime, add_long, to_int}
use linux_c_code.Eloop.Time.Order.{IsNormal}
use linux_c_code.Eloop.Timeouts.{carry_loop, carry, deadline}

abbrev at : ℕ → ℕ → Reltime
at s u = record { sec = pos s; usec = pos u }

carry_step :
    (s u f : ℕ)
    → s < 2 ^ 62
    → 1_000_000 ≤ u
    → carry_loop (suc f) (at s u) ≡ carry_loop f (at (s + 1) (u - 1_000_000))
unfolding carry_loop add_long ◌+ℤ◌ ◌-ℤ◌
carry_step s u f h k = ground arith

carry_stop : (s u f : ℕ) → u < 1_000_000 → carry_loop (suc f) (at s u) ≡ at s u
unfolding carry_loop
carry_stop s u f h = ground arith

-- The loop has divided `usec` by a million when its rounds are up.
carry_loop_lem :
    (f s u : ℕ)
    → u / 1_000_000 < f
    → s + f < 2 ^ 62
    → carry_loop f (at s u) ≡ at (s + u / 1_000_000) (u % 1_000_000)
carry_loop_lem zero s u h k = absurd (omega arith)
carry_loop_lem (suc f) s u h k = elim (Bool-cases (ltb u 1_000_000)) [
  | inl small ↦ carry_stop s u f (ltb→lt u 1_000_000 small) ∙ ap₂ at (ground arith) (ground arith)
  | inr big ↦
      carry_step s u f (omega arith) (ground arith)
      ∙ carry_loop_lem f (s + 1) (u - 1_000_000) (ground arith) (omega arith)
      ∙ ap₂ at (ground arith) (ground arith)
]

sum_long : (s n : ℕ) → s < 2 ^ 62 → n < 2 ^ 31 → add_long (pos s) (to_int n) ≡ pos (s + n)
unfolding add_long to_int ◌+ℤ◌
sum_long s n h k = ground arith

sum_wraps :
    (s : ℤ) (n : ℕ)
    → 2 ^ 31 ≤ n
    → n < 2 ^ 32
    → pos_part s < 2 ^ 62
    → neg_part s < 2 ^ 62
    → ltb_ℤ (add_long s (to_int n)) s ≡ true
unfolding add_long to_int ◌+ℤ◌
sum_wraps s n h k l m = ground arith

not_before_self : (s n : ℕ) → ltb_ℤ (pos (s + n)) (pos s) ≡ false
not_before_self s n = ground arith

deadline-at :
    (s u secs usecs : ℕ)
    → s < 2 ^ 61
    → u < 1_000_000
    → secs < 2 ^ 31
    → usecs < 2 ^ 31
    → deadline (at s u) secs usecs
      ≡ some (at (s + secs + (u + usecs) / 1_000_000) ((u + usecs) % 1_000_000))
unfolding deadline carry
deadline-at s u secs usecs hs hu hsecs husecs = rw (
  sum_long s secs (omega arith) hsecs,
  sum_long u usecs (omega arith) husecs,
  not_before_self s secs,
  carry_loop_lem ((u + usecs) / 1_000_000 + 1) (s + secs) (u + usecs) (omega arith) (omega arith),
)

-- From a clock reading in normal form and of less than 2 ^ 61 seconds, with arguments below 2 ^ 31,
-- `eloop_register_timeout` computes the time that many seconds and microseconds later, exactly and
-- in normal form.
pub deadline_lem :
    (s u secs usecs : ℕ)
    → s < 2 ^ 61
    → u < 1_000_000
    → secs < 2 ^ 31
    → usecs < 2 ^ 31
    → (t : Reltime) × (deadline (at s u) secs usecs ≡ some t)
      × IsNormal t
      × (pos_part t.sec * 1_000_000 + pos_part t.usec ≡ (s + secs) * 1_000_000 + (u + usecs))
deadline_lem s u secs usecs hs hu hsecs husecs = (
  at (s + secs + (u + usecs) / 1_000_000) ((u + usecs) % 1_000_000),
  deadline-at s u secs usecs hs hu hsecs husecs,
  omega arith,
  omega arith,
)

-- A request of 2 ^ 31 seconds or more is taken for one that never falls due: there is no deadline.
pub deadline-none :
    (now : Reltime) (secs usecs : ℕ)
    → pos_part now.sec < 2 ^ 62
    → neg_part now.sec < 2 ^ 62
    → 2 ^ 31 ≤ secs
    → secs < 2 ^ 32
    → deadline now secs usecs ≡ none
unfolding deadline
deadline-none now secs usecs h k l m = rw (sum_wraps now.sec secs l m h k)
