-- ===== src/Eloop/Timeouts/Change.antt =====
-- `eloop_deplete_timeout` and `eloop_replenish_timeout` of eloop/src/eloop.c.
use linux_c_code.Base.{
  ℕ, ◌≡◌, Bool, true, false, Option, none, some, List, arith, Bool-cases, Option-cases, inl, inr,
}
use linux_c_code.Base.Int.{ℤ, pos, negsuc}
use linux_c_code.Eloop.Time.{Reltime, before, sub}
use linux_c_code.Eloop.State.{Timeout, Eloop}
use linux_c_code.Eloop.Timeouts.{
  insert, deadline, matches, matches_any, find, register_timeout, reschedule, deplete_timeout,
  replenish_timeout, is_timeout_registered, requested,
}
use linux_c_code.Eloop.Timeouts.Sorted.{IsSorted, insert-IsSorted}
use linux_c_code.Eloop.Timeouts.Cancel.{
  reject, cancelled, reject-IsSorted, is_timeout_registered-cancel_timeout,
}

module _ (secs usecs handler eloop_data user_data : ℕ) where
  abbrev pub timeout_at : Reltime → Timeout
  timeout_at time = record {
    time = time;
    eloop_data = eloop_data;
    user_data = user_data;
    handler = handler;
  }

  -- The ring in which `time` takes the place of every timeout that matches.
  abbrev pub moved_to : Reltime → List Timeout → List Timeout
  moved_to time ts = insert (timeout_at time) (reject (matches_any handler eloop_data user_data) ts)

  -- What a change of the timeout does, by what is registered and by the test `far` on the time that
  -- is left.
  pub data Changes (far : Reltime → Bool) (now time : Reltime) (e : Eloop) (out : ℤ × Eloop)
      : Type 0 where
    absent :
        find (matches handler eloop_data user_data) e.timeout ≡ none
        → out ≡ (negsuc 0, e)
        → Changes far now time e out
    kept :
        (t : Timeout)
        → find (matches handler eloop_data user_data) e.timeout ≡ some t
        → far (sub t.time now) ≡ false
        → out ≡ (pos 0, e)
        → Changes far now time e out
    moved :
        (t : Timeout)
        → find (matches handler eloop_data user_data) e.timeout ≡ some t
        → far (sub t.time now) ≡ true
        → out ≡ (pos 1, record e { timeout = moved_to time e.timeout })
        → IsSorted (moved_to time e.timeout)
        → Changes far now time e out

  register-deadline :
      (now time : Reltime) (e : Eloop)
      → deadline now secs usecs ≡ some time
      → register_timeout true (some now) secs usecs handler eloop_data user_data e
        ≡ (pos 0, record e { timeout = insert (timeout_at time) e.timeout })
  unfolding register_timeout
  register-deadline now time e d = ground arith

  rescheduled :
      (again time : Reltime) (e : Eloop)
      → deadline again secs usecs ≡ some time
      → reschedule true (some again) secs usecs handler eloop_data user_data e
        ≡ record e { timeout = moved_to time e.timeout }
  unfolding reschedule
  rescheduled again time e d = ground (
    arith,
    cancelled handler eloop_data user_data e,
    register-deadline again time
        (record e { timeout = reject (matches_any handler eloop_data user_data) e.timeout }) d,
  )

  -- With memory, a clock and a deadline for the request, `eloop_deplete_timeout` returns -1 if no timeout matches exactly, 0 if
  -- the first that does has at most the requested time left, and otherwise 1 after it has put one
  -- timeout of the requested length from the second clock reading in the place of all that match; a
  -- sorted ring stays sorted.
  pub deplete_timeout-Changes :
      (now again time : Reltime) (e : Eloop)
      → IsSorted e.timeout
      → deadline again secs usecs ≡ some time
      → Changes
          (λ left. before (requested secs usecs) left)
          now
          time
          e
          (deplete_timeout true now (some again) secs usecs handler eloop_data user_data e)
  unfolding deplete_timeout
  deplete_timeout-Changes now again time e s d =
      elim (Option-cases (find (matches handler eloop_data user_data) e.timeout)) [
        | inl h ↦ absent h (ground arith)
        | inr (t, h) ↦ elim (Bool-cases (before (requested secs usecs) (sub t.time now))) [
          | inl far ↦
              moved t h far (ground (arith, rescheduled again time e d))
                (insert-IsSorted _ _ (reject-IsSorted _ e.timeout s))
          | inr near ↦ kept t h near (ground arith)
        ]
      ]

  -- The same for `eloop_replenish_timeout`, which moves the timeout if less than the requested time
  -- is left.
  pub replenish_timeout_lem :
      (now again time : Reltime) (e : Eloop)
      → IsSorted e.timeout
      → deadline again secs usecs ≡ some time
      → Changes
          (λ left. before left (requested secs usecs))
          now
          time
          e
          (replenish_timeout true now (some again) secs usecs handler eloop_data user_data e)
  unfolding replenish_timeout
  replenish_timeout_lem now again time e s d =
      elim (Option-cases (find (matches handler eloop_data user_data) e.timeout)) [
        | inl h ↦ absent h (ground arith)
        | inr (t, h) ↦ elim (Bool-cases (before (sub t.time now) (requested secs usecs))) [
          | inl far ↦
              moved t h far (ground (arith, rescheduled again time e d))
                (insert-IsSorted _ _ (reject-IsSorted _ e.timeout s))
          | inr near ↦ kept t h near (ground arith)
        ]
      ]

  -- Without memory for the new timeout, a change that is due loses the timeout: both functions
  -- return 1, the code for success, and nothing is registered under the arguments afterwards.
  pub change_loses :
      (now : Reltime) (again : Option Reltime) (t : Timeout) (e : Eloop)
      → find (matches handler eloop_data user_data) e.timeout ≡ some t
      → before (requested secs usecs) (sub t.time now) ≡ true
      → let (code, e') =
          deplete_timeout false now again secs usecs handler eloop_data user_data e in
        (code ≡ pos 1) × (is_timeout_registered handler eloop_data user_data e' ≡ false)
  unfolding deplete_timeout reschedule register_timeout
  change_loses now again t e h far =
      ground (arith, is_timeout_registered-cancel_timeout handler eloop_data user_data e)
