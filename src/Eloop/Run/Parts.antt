-- ===== src/Eloop/Run/Parts.antt =====
-- The invariant of the loop's state in the parts of a round of `eloop_run` in eloop/src/eloop.c.
use mathlib.Core.Path.{subst}
use linux_c_code.Base.{
  ℕ, zero, suc, ◌+◌, inl, inr, false, Option, none, some, List, [], ◌∷◌, Bool-cases, if◌then◌else◌,
  ◌==◌, ltb, get_elem?,
}
use linux_c_code.Eloop.Time.{Reltime}
use linux_c_code.Eloop.State.{
  Sock, EventType, read, write, exception, Signal, Eloop, get_table, set_table, live,
}
use linux_c_code.Eloop.Table.{FdSet, is_nil}
use linux_c_code.Eloop.Table.Refine.{Fits}
use linux_c_code.Eloop.Timeouts.Sorted.{IsSorted}
use linux_c_code.Eloop.World.{sock_call, World, Callback}
use linux_c_code.Eloop.World.Invariant.{IsValid, AtMost}
use linux_c_code.Eloop.World.Preserve.{
  besides_tables, with_timeouts, call-IsValid, exec_all-IsValid,
}
use linux_c_code.Eloop.Signals.{
  handle_signal, deliver, process_signal, process_loop, process_pending_signals,
}
use linux_c_code.Eloop.Run.{call_sock, dispatch_loop, dispatch, fire_timeout}
use linux_c_code.Eloop.Run.Timer.{Fired, none_due, one_due, fire_timeout_lem}

handle_signal-IsValid :
    (sig : ℕ) (w : World) → IsValid w.eloop → IsValid (handle_signal sig w).eloop
unfolding handle_signal
handle_signal-IsValid sig w v =
    besides_tables w.eloop.timeout _ _ _ w.eloop.terminate w.eloop v v.sorted

pub deliver-IsValid : (sigs : List ℕ) (w : World) → IsValid w.eloop → IsValid (deliver sigs w).eloop
unfolding deliver
deliver-IsValid [] w v = v
deliver-IsValid (k ∷ ks) w v = deliver-IsValid ks (handle_signal k w) (handle_signal-IsValid k w v)

process_signal-IsValid :
    (cb : Callback) (i : ℕ) (s : Signal) (w : World)
    → IsValid w.eloop
    → IsValid (process_signal cb i s w).eloop
unfolding process_signal
process_signal-IsValid cb i s w v = elim (Bool-cases (s.signaled == 0)) [
  | inl idle ↦ rw idle v
  | inr busy ↦ rw busy (
      call-IsValid cb _ _ (
        besides_tables w.eloop.timeout _ w.eloop.signaled w.eloop.pending_terminate
          w.eloop.terminate w.eloop v v.sorted))
]

process_loop-IsValid :
    (cb : Callback) (n i : ℕ) (w : World) → IsValid w.eloop → IsValid (process_loop cb n i w).eloop
unfolding process_loop
process_loop-IsValid cb zero i w v = v
process_loop-IsValid cb (suc n) i w v =
    go (process_loop-IsValid cb n (i + 1)) (get_elem? w.eloop.signals i)
  where
    go :
        ((w' : World) → IsValid w'.eloop → IsValid (process_loop cb n (i + 1) w').eloop)
        → (o : Option Signal)
        → IsValid
            (elim o as (λ _. World) [
              | none ↦ w
              | some s ↦ process_loop cb n (i + 1) (process_signal cb i s w)
            ]).eloop
    go rec none = v
    go rec (some s) = rec (process_signal cb i s w) (process_signal-IsValid cb i s w v)

pub process_pending-IsValid :
    (cb : Callback) (w : World) → IsValid w.eloop → IsValid (process_pending_signals cb w).eloop
unfolding process_pending_signals
process_pending-IsValid cb w v = elim (Bool-cases (w.eloop.signaled == 0)) [
  | inl quiet ↦ rw quiet v
  | inr came ↦ rw came (
      process_loop-IsValid cb _ 0 _ (
        besides_tables w.eloop.timeout w.eloop.signals 0 false w.eloop.terminate w.eloop v
          v.sorted))
]

pub fire-IsValid :
    (cb : Callback) (now : Reltime) (w : World)
    → IsValid w.eloop
    → IsValid (fire_timeout cb now w).eloop
fire-IsValid cb now w v = go (fire_timeout_lem cb now w v.sorted)
  where
    go : {w' : World} → Fired cb now w w' → IsValid w'.eloop
    go (none_due a same) = rw same v
    go (one_due t ts e due first calls state) =
        rw state (exec_all-IsValid _ _ (with_timeouts ts w.eloop v (subst IsSorted e v.sorted).1))

dispatch_loop-IsValid :
    (cb : Callback) (type : EventType) (fds : FdSet) (n i : ℕ) (w : World)
    → IsValid w.eloop
    → IsValid (dispatch_loop cb type fds n i w).eloop
unfolding dispatch_loop
dispatch_loop-IsValid cb type fds zero i w v = v
dispatch_loop-IsValid cb type fds (suc n) i w v = go (dispatch_loop-IsValid cb type fds n (i + 1)) (
    if ltb i (get_table type w.eloop).count
    then get_elem? (get_table type w.eloop).cells i
    else none)
  where
    go :
        ((w' : World) → IsValid w'.eloop → IsValid (dispatch_loop cb type fds n (i + 1) w').eloop)
        → (o : Option Sock)
        → IsValid
            (elim o as (λ _. World) [
              | none ↦ w
              | some s ↦
                  let w' = call_sock cb s w in
                  let next = dispatch_loop cb type fds n (i + 1) w' in
                  if fds s.sock
                  then (if (get_table type w'.eloop).changed then w' else next)
                  else dispatch_loop cb type fds n (i + 1) w
            ]).eloop
    go rec none = v
    go rec (some s) = elim (Bool-cases (fds s.sock)) [
      | inr idle ↦ rw idle (rec w v)
      | inl is_ready ↦
          let v' = call-IsValid cb (sock_call s.handler s.sock s.eloop_data s.user_data) w v in
          rw is_ready (elim (Bool-cases (get_table type (call_sock cb s w).eloop).changed) [
            | inl changed ↦ rw changed v'
            | inr same ↦ rw same (rec (call_sock cb s w) v')
          ])
    ]

by_type : (P : EventType → Type 0) → P read → P write → P exception → (type : EventType) → P type
by_type P r w x read = r
by_type P r w x write = w
by_type P r w x exception = x

clear_flag-IsValid :
    (type : EventType) (e : Eloop)
    → IsValid e
    → IsValid (set_table type (record (get_table type e) { changed = false }) e)
unfolding set_table get_table
clear_flag-IsValid read e v =
    let e' = record e { readers = record e.readers { changed = false } } in
    record {
      fits =
          by_type (λ t. Fits (get_table t e')) (record { within = (v.fits read).within })
            (v.fits write) (v.fits exception);
      total = v.total;
      bound =
          by_type (λ t. AtMost e.max_sock (live (get_table t e'))) (v.bound read) (v.bound write)
            (v.bound exception);
      sorted = v.sorted;
    }
clear_flag-IsValid write e v =
    let e' = record e { writers = record e.writers { changed = false } } in
    record {
      fits =
          by_type (λ t. Fits (get_table t e')) (v.fits read)
            (record { within = (v.fits write).within }) (v.fits exception);
      total = v.total;
      bound =
          by_type (λ t. AtMost e.max_sock (live (get_table t e'))) (v.bound read) (v.bound write)
            (v.bound exception);
      sorted = v.sorted;
    }
clear_flag-IsValid exception e v =
    let e' = record e { exceptions = record e.exceptions { changed = false } } in
    record {
      fits =
          by_type (λ t. Fits (get_table t e')) (v.fits read) (v.fits write)
            (record { within = (v.fits exception).within });
      total = v.total;
      bound =
          by_type (λ t. AtMost e.max_sock (live (get_table t e'))) (v.bound read) (v.bound write)
            (v.bound exception);
      sorted = v.sorted;
    }

pub dispatch-IsValid :
    (cb : Callback) (type : EventType) (fds : FdSet) (w : World)
    → IsValid w.eloop
    → IsValid (dispatch cb type fds w).eloop
unfolding dispatch
dispatch-IsValid cb type fds w v = elim (Bool-cases (is_nil (get_table type w.eloop).cells)) [
  | inl null ↦ rw null v
  | inr filled ↦
      rw filled (dispatch_loop-IsValid cb type fds _ 0 _ (clear_flag-IsValid type w.eloop v))
]
