-- ===== src/Eloop/Run/Safety.antt =====
-- The invariant of the loop's state in `eloop_run` of eloop/src/eloop.c.
use linux_c_code.Base.{inl, inr, Bool, true, false, List, [], ◌∷◌, Bool-cases, if◌then◌else◌, ◌==◌}
use linux_c_code.Eloop.State.{read, write, exception, Eloop}
use linux_c_code.Eloop.World.{World, Callback}
use linux_c_code.Eloop.World.Invariant.{IsValid}
use linux_c_code.Eloop.World.Preserve.{besides_tables}
use linux_c_code.Eloop.Signals.{deliver, process_pending_signals}
use linux_c_code.Eloop.Run.{
  dispatch, fire_timeout, Answer, failure, ready, Round, Outcome, finished, failed, overflow,
  waiting, keep_going, sets_fit, serve, answer_is_fatal, run_loop, run,
}
use linux_c_code.Eloop.Run.Parts.{
  deliver-IsValid, process_pending-IsValid, fire-IsValid, dispatch-IsValid,
}

serve-IsValid :
    (cb : Callback) (r : Round) (w : World) → IsValid w.eloop → IsValid (serve cb r w).eloop
unfolding serve
serve-IsValid cb r w v = go r.answer
  where
    w1 : World
    w1 = fire_timeout cb r.now (process_pending_signals cb w)

    v1 : IsValid w1.eloop
    v1 = fire-IsValid cb r.now _ (process_pending-IsValid cb w v)

    go :
        (a : Answer)
        → IsValid
            (elim a as (λ _. World) [
              | failure errno ↦ w1
              | ready n rfds wfds efds ↦
                  if n == 0
                  then w1
                  else dispatch cb exception efds
                      (dispatch cb write wfds (dispatch cb read rfds w1))
            ]).eloop
    go (failure errno) = v1
    go (ready n rfds wfds efds) = elim (Bool-cases (n == 0)) [
      | inl idle ↦ rw idle v1
      | inr busy ↦ rw busy (
          dispatch-IsValid cb exception efds _
            (dispatch-IsValid cb write wfds _ (dispatch-IsValid cb read rfds w1 v1)))
    ]

-- The state in which `eloop_run` returns or waits.
abbrev pub state : Outcome → Eloop
state (finished w) = w.eloop
state (failed w) = w.eloop
state (overflow w) = w.eloop
state (waiting w) = w.eloop

finished-IsValid : (w : World) → IsValid w.eloop → IsValid (record w.eloop { terminate = false })
finished-IsValid w v =
    besides_tables w.eloop.timeout w.eloop.signals w.eloop.signaled w.eloop.pending_terminate false
      w.eloop v v.sorted

choose :
    (b : Bool) (o p : Outcome)
    → IsValid (state o)
    → IsValid (state p)
    → IsValid (state (if b then o else p))
choose true o p v u = v
choose false o p v u = u

run_loop-IsValid :
    (cb : Callback) (rounds : List Round) (w : World)
    → IsValid w.eloop
    → IsValid (state (run_loop cb rounds w))
unfolding run_loop
run_loop-IsValid cb [] w v =
    choose (keep_going w.eloop) _ _ (choose (sets_fit w.eloop) _ _ v v) (finished-IsValid w v)
run_loop-IsValid cb (r ∷ rounds) w v =
    let v1 = deliver-IsValid r.arrived w v in
    choose (keep_going w.eloop) _ _
      (choose (sets_fit w.eloop) _ _
        (choose (answer_is_fatal r.answer) _ _ v1
          (run_loop-IsValid cb rounds _ (serve-IsValid cb r (deliver r.arrived w) v1)))
        v)
      (finished-IsValid w v)

-- For callbacks that answer each call, depending on all calls before it and on the state, with any
-- sequence of the functions for descriptors and timeouts and of `eloop_terminate`, with any answers of
-- the memory and the clock, and for any signals, clock readings and answers of `select` in the rounds:
-- however `eloop_run` ends or waits, the tables stay in their arrays, `count` sums them, `max_sock`
-- bounds every descriptor and the timeouts stay in order. A callback that calls
-- `eloop_register_signal`, `eloop_run` or `eloop_destroy` is not covered.
pub run-IsValid :
    (alloc : Bool) (cb : Callback) (rounds : List Round) (w : World)
    → IsValid w.eloop
    → IsValid (state (run alloc cb rounds w))
unfolding run
run-IsValid false cb rounds w v = v
run-IsValid true cb rounds w v = run_loop-IsValid cb rounds w v
