-- ===== src/Eloop/Run/Timer.antt =====
-- Waiting for and firing timeouts in `eloop_run` of eloop/src/eloop.c.
use mathlib.Core.Path.{subst}
use linux_c_code.Base.{
  ◌≡◌, refl, sym, ap, ◌∙◌, ◌⊎◌, inl, inr, true, false, some, List, [], ◌∷◌, ◌++◌, arith, Bool-cases,
}
use linux_c_code.Base.Int.{pos, ltb_ℤ}
use linux_c_code.Eloop.Time.{Reltime, before, sub}
use linux_c_code.Eloop.Time.Order.{before-asymm, IsNormal, Elapsed, sub-Elapsed}
use linux_c_code.Eloop.State.{Timeout}
use linux_c_code.Eloop.Timeouts.{zero_time}
use linux_c_code.Eloop.Timeouts.Sorted.{IsSorted, NoneBefore, AllAfter, AllAfter-trans}
use linux_c_code.Eloop.World.{timeout_call, World, Callback, call, exec_all}
use linux_c_code.Eloop.Run.{wait_time, fire_timeout}

-- How long `select` may wait for the first timeout `t`.
pub record Waits (now : Reltime) (t : Timeout) (d : Reltime) : Type 0 where
  pub normal : IsNormal d
  pub nonneg : ltb_ℤ d.sec (pos 0) ≡ false
  pub span :
      ((before now t.time ≡ true) × Elapsed t.time now d)
      ⊎ ((before now t.time ≡ false) × (d ≡ zero_time))

early_wait :
    (now : Reltime) (t : Timeout)
    → IsNormal now
    → IsNormal t.time
    → before now t.time ≡ true
    → Waits now t (sub t.time now)
early_wait now t hn ht early =
    let (exact, normal, sign) = sub-Elapsed t.time now ht hn in
    record {
      normal = normal;
      nonneg = sym sign ∙ before-asymm now t.time early;
      span = inl (early, exact);
    }

-- With a timeout in the ring, `eloop_run` lets `select` wait exactly until the first one is due, and
-- not at all if it is due already. The time handed over is never negative and in normal form.
pub wait_time_lem :
    (now : Reltime) (t : Timeout) (ts : List Timeout)
    → IsNormal now
    → IsNormal t.time
    → (d : Reltime) × (wait_time now (t ∷ ts) ≡ some d) × Waits now t d
unfolding wait_time
wait_time_lem now t ts hn ht = elim (Bool-cases (before now t.time)) [
  | inl early ↦ (sub t.time now, rw early refl, early_wait now t hn ht early)
  | inr due ↦ (
    zero_time,
    rw due refl,
    record { normal = omega arith; nonneg = refl; span = inr (due, refl) },
  )
]

-- What `eloop_run` does with the ring after `select`.
pub data Fired (cb : Callback) (now : Reltime) (w w' : World) : Type 0 where
  none_due : AllAfter now w.eloop.timeout → w' ≡ w → Fired cb now w w'
  one_due :
      (t : Timeout) (ts : List Timeout)
      → w.eloop.timeout ≡ t ∷ ts
      → before now t.time ≡ false
      → NoneBefore t.time ts
      → w'.calls ≡ w.calls ++ (timeout_call t.handler t.eloop_data t.user_data ∷ [])
      → w'.eloop
        ≡ exec_all
            (cb w.calls
              (timeout_call t.handler t.eloop_data t.user_data)
              (record w.eloop { timeout = ts }))
            (record w.eloop { timeout = ts })
      → Fired cb now w w'

fire_early :
    (cb : Callback) (now : Reltime) (w : World) (t : Timeout) (ts : List Timeout)
    → w.eloop.timeout ≡ t ∷ ts
    → before now t.time ≡ true
    → fire_timeout cb now w ≡ w
unfolding fire_timeout
fire_early cb now w t ts e h = ground arith

fire_due :
    (cb : Callback) (now : Reltime) (w : World) (t : Timeout) (ts : List Timeout)
    → w.eloop.timeout ≡ t ∷ ts
    → before now t.time ≡ false
    → fire_timeout cb now w
      ≡ call cb
          (timeout_call t.handler t.eloop_data t.user_data)
          (record w { eloop = record w.eloop { timeout = ts } })
unfolding fire_timeout
fire_due cb now w t ts e h = ground arith

fire_nil :
    (cb : Callback) (now : Reltime) (w : World) → w.eloop.timeout ≡ [] → fire_timeout cb now w ≡ w
unfolding fire_timeout
fire_nil cb now w e = ground arith

fire_cases :
    (cb : Callback) (now : Reltime) (w : World) (ts : List Timeout)
    → w.eloop.timeout ≡ ts
    → IsSorted ts
    → Fired cb now w (fire_timeout cb now w)
unfolding call
fire_cases cb now w [] e s = none_due (subst (AllAfter now) (sym e) tt) (fire_nil cb now w e)
fire_cases cb now w (t ∷ ts) e s = elim (Bool-cases (before now t.time)) [
  | inl early ↦
      none_due (subst (AllAfter now) (sym e) (early, AllAfter-trans now t.time ts early s.0))
        (fire_early cb now w t ts e early)
  | inr due ↦
      let fired = fire_due cb now w t ts e due in
      one_due t ts e due s.0 (ap (λ (x : World). x.calls) fired) (ap (λ (x : World). x.eloop) fired)
]

-- From a sorted ring at most one timeout fires in a round: an earliest one, never before it is due,
-- after it has left the ring. If none fires, then every timeout lies in the future.
pub fire_timeout_lem :
    (cb : Callback) (now : Reltime) (w : World)
    → IsSorted w.eloop.timeout
    → Fired cb now w (fire_timeout cb now w)
fire_timeout_lem cb now w s = fire_cases cb now w w.eloop.timeout refl s
