-- ===== src/Eloop/Signals/Pending.antt =====
-- What `eloop_process_pending_signals` and `eloop_handle_signal` of eloop/src/eloop.c do together.
use mathlib.Core.List.{append_assoc, append-nil}
use native.Mathlib.Decide.{ℕ_discrete}
use linux_c_code.Base.{
  ◌⊎◌, ℕ, suc, ◌+◌, ◌≡◌, ◌≢◌, refl, sym, ap, ◌∙◌, Bool, true, false, Option, none, some, List, [],
  ◌∷◌, ◌++◌, arith, inl, inr, map, ◌==◌, Bool-cases, if◌then◌else◌, get_elem?, length, set,
  length-append,
}
use linux_c_code.Base.Slices.{get_elem?-append, set-append}
use linux_c_code.Eloop.State.{Signal, EventType, read, write, exception, Sock, Eloop}
use linux_c_code.Eloop.Table.{add_sock, remove_sock, register_sock, unregister_sock}
use linux_c_code.Eloop.Timeouts.{
  register_timeout, cancel_timeout, cancel_timeout_one, reschedule, deplete_timeout,
  replenish_timeout,
}
use linux_c_code.Eloop.Time.{Reltime}
use linux_c_code.Eloop.World.{
  Call, signal_call, Action, add_fd, drop_fd, add_timer, drop_timers, drop_timer, deplete,
  replenish, stop, exec, exec_all, terminate, World, Callback, call,
}
use linux_c_code.Eloop.Signals.{process_signal, process_loop, process_pending_signals}

add_sock-signals :
    (alloc : Bool) (type : EventType) (s : Sock) (e : Eloop)
    → (add_sock alloc type s e).1.signals ≡ e.signals
unfolding add_sock
add_sock-signals alloc read s e = ground arith
add_sock-signals alloc write s e = ground arith
add_sock-signals alloc exception s e = ground arith

remove_sock-signals :
    (type : EventType) (sock : ℕ) (e : Eloop) → (remove_sock type sock e).signals ≡ e.signals
unfolding remove_sock
remove_sock-signals read sock e = ground arith
remove_sock-signals write sock e = ground arith
remove_sock-signals exception sock e = ground arith

register-signals :
    (alloc : Bool) (now : Option Reltime) (secs usecs h d u : ℕ) (e : Eloop)
    → (register_timeout alloc now secs usecs h d u e).1.signals ≡ e.signals
unfolding register_timeout
register-signals false now secs usecs h d u e = refl
register-signals true none secs usecs h d u e = refl
register-signals true (some now) secs usecs h d u e = ground arith

exec-signals : (a : Action) (e : Eloop) → (exec a e).signals ≡ e.signals
unfolding exec register_sock unregister_sock terminate cancel_timeout cancel_timeout_one reschedule
    deplete_timeout replenish_timeout
exec-signals (add_fd alloc sock type h d u) e = add_sock-signals alloc type _ e
exec-signals (drop_fd sock type) e = remove_sock-signals type sock e
exec-signals (add_timer alloc now secs usecs h d u) e =
    register-signals alloc now secs usecs h d u e
exec-signals (drop_timers h d u) e = refl
exec-signals (drop_timer now h d u) e = refl
exec-signals (deplete alloc now again secs usecs h d u) e =
    ground (arith, register-signals alloc again secs usecs h d u (cancel_timeout h d u e).1)
exec-signals (replenish alloc now again secs usecs h d u) e =
    ground (arith, register-signals alloc again secs usecs h d u (cancel_timeout h d u e).1)
exec-signals stop e = refl

exec_all-signals : (actions : List Action) (e : Eloop) → (exec_all actions e).signals ≡ e.signals
unfolding exec_all
exec_all-signals [] e = refl
exec_all-signals (a ∷ actions) e = exec_all-signals actions (exec a e) ∙ exec-signals a e

-- The entry after its call.
abbrev pub cleared : Signal → Signal
cleared s = record s { signaled = 0 }

-- The calls that the entries ask for: one for each that has counted a signal, in their order.
unfoldable pub pending_calls : List Signal → List Call
pending_calls [] = []
pending_calls (s ∷ ss) =
    if s.signaled == 0
    then pending_calls ss
    else signal_call s.handler s.sig s.user_data ∷ pending_calls ss

cleared-idle : (s : Signal) → (s.signaled == 0) ≡ true → s ≡ cleared s
cleared-idle s h = ground arith

-- What one round of the loop does.
process_signal_lem :
    (cb : Callback) (front back : List Signal) (s : Signal) (w : World)
    → w.eloop.signals ≡ front ++ (s ∷ back)
    → let w' = process_signal cb (length front) s w in
      (w'.eloop.signals ≡ (front ++ (cleared s ∷ [])) ++ back)
      × (w'.calls ++ pending_calls back ≡ w.calls ++ pending_calls (s ∷ back))
unfolding process_signal call pending_calls
process_signal_lem cb front back s w e = elim (Bool-cases (s.signaled == 0)) [
  | inl idle ↦ rw idle (
    e
        ∙ ap (λ (x : Signal). front ++ (x ∷ back)) (cleared-idle s idle)
        ∙ sym (append_assoc front (cleared s ∷ []) back),
    refl,
  )
  | inr busy ↦ rw busy (
    exec_all-signals _ _
        ∙ ap (λ (l : List Signal). set l (length front) (cleared s)) e
        ∙ set-append front back s (cleared s)
        ∙ sym (append_assoc front (cleared s ∷ []) back),
    append_assoc w.calls (signal_call s.handler s.sig s.user_data ∷ []) (pending_calls back),
  )
]

process_round :
    (cb : Callback) (front back : List Signal) (s : Signal) (w : World)
    → get_elem? w.eloop.signals (length front) ≡ some s
    → let w' =
        process_loop cb (length back) (length front + 1) (process_signal cb (length front) s w) in
      w'.eloop.signals ≡ front ++ map cleared (s ∷ back)
      → w'.calls ≡ w.calls ++ pending_calls (s ∷ back)
      → let w'' = process_loop cb (suc (length back)) (length front) w in
        (w''.eloop.signals ≡ front ++ map cleared (s ∷ back))
        × (w''.calls ≡ w.calls ++ pending_calls (s ∷ back))
unfolding process_loop
process_round cb front back s w here e c = ground arith

process_loop_lem :
    (cb : Callback) (back front : List Signal) (n i : ℕ) (w : World)
    → w.eloop.signals ≡ front ++ back
    → n ≡ length back
    → i ≡ length front
    → let w' = process_loop cb n i w in
      (w'.eloop.signals ≡ front ++ map cleared back) × (w'.calls ≡ w.calls ++ pending_calls back)
unfolding process_loop pending_calls
process_loop_lem cb [] front n i w e k j = rw k (e, sym (append-nil w.calls))
process_loop_lem cb (s ∷ back) front n i w e k j =
    let (signals, calls) = process_signal_lem cb front back s w e in
    let here : get_elem? w.eloop.signals (length front) ≡ some s =
      rw e (get_elem?-append front back s) in
    let rest =
      process_loop_lem cb back (front ++ (cleared s ∷ [])) (length back) (length front + 1)
        (process_signal cb (length front) s w) signals refl
        (omega (arith, length-append front (cleared s ∷ []))) in
    rw (k, j)
      (process_round cb front back s w here
        (rest.0 ∙ append_assoc front (cleared s ∷ []) (map cleared back)) (rest.1 ∙ calls))

-- `eloop_process_pending_signals` calls the handler of each entry that has counted a signal once, in
-- the order of the entries, and leaves no entry counted; it does nothing if no signal came.
pub process_pending_signals_lem :
    (cb : Callback) (w : World)
    → let w' = process_pending_signals cb w in
      ((w.eloop.signaled ≡ 0) × (w' ≡ w))
      ⊎ ((w.eloop.signaled ≢ 0)
          × (w'.eloop.signals ≡ map cleared w.eloop.signals)
          × (w'.calls ≡ w.calls ++ pending_calls w.eloop.signals))
unfolding process_pending_signals
process_pending_signals_lem cb w = elim (ℕ_discrete w.eloop.signaled 0) [
  | yes none_came ↦ inl (none_came, ground arith)
  | no came ↦
      let quiet = record w {
        alarm = (if w.eloop.pending_terminate then false else w.alarm);
        eloop = record w.eloop { signaled = 0; pending_terminate = false };
      } in
      let all =
        process_loop_lem cb w.eloop.signals [] (length w.eloop.signals) 0 quiet refl refl refl in
      inr (came, ground (arith, all), ground (arith, all))
]
