-- ===== src/Eloop/World/Preserve.antt =====
-- The loop's invariant under the functions of eloop/src/eloop.h that an application can call.
use linux_c_code.Base.{
  ◌⊎◌, ℕ, ◌≡◌, refl, Bool, true, false, Option, none, some, List, [], ◌∷◌, arith, inl, inr,
  Option-cases,
}
use linux_c_code.Eloop.State.{
  Sock, EventType, read, write, exception, Timeout, Signal, Eloop, get_table, live,
}
use linux_c_code.Eloop.Time.{Reltime}
use linux_c_code.Eloop.Table.{add_sock, remove_sock, register_sock, unregister_sock}
use linux_c_code.Eloop.Table.Refine.{add_sock_lem, remove_sock_lem}
use linux_c_code.Eloop.Timeouts.{
  insert, register_timeout, cancel_timeout, cancel_timeout_one, cancel_one_loop, matches,
  reschedule, deplete_timeout, replenish_timeout, deadline,
}
use linux_c_code.Eloop.Timeouts.Sorted.{IsSorted, NoneBefore, insert-IsSorted}
use linux_c_code.Eloop.Timeouts.Cancel.{cancelled, reject-IsSorted}
use linux_c_code.Eloop.World.{
  terminate, Action, add_fd, drop_fd, add_timer, drop_timers, drop_timer, deplete, replenish, stop,
  exec, exec_all, World, Callback, Call, call,
}
use linux_c_code.Eloop.World.Invariant.{
  AtMost, IsValid, AtMost-mono, AtMost-append, AtMost-erase_sock, Updates-Fits, Updates-AtMost,
  add_sock-Total, remove_sock-Total, add_sock-timeout, remove_sock-keeps,
}

add_sock-IsValid :
    (alloc : Bool) (type : EventType) (s : Sock) (e : Eloop)
    → IsValid e
    → IsValid (add_sock alloc type s e).1
add_sock-IsValid false type s e v = rw (add_sock_lem type s e (v.fits type)).4 v
add_sock-IsValid true type s e v =
    let (ok, u, counted, top, failed) = add_sock_lem type s e (v.fits type) in
    let e' = (add_sock true type s e).1 in
    let grown = λ (m : ℕ) (ss : List Sock). AtMost-mono e.max_sock m ss in
    record {
      fits = Updates-Fits u v.fits;
      total = add_sock-Total true type s e v.total;
      bound =
          Updates-AtMost e'.max_sock u
            (AtMost-append e'.max_sock (live (get_table type e)) (s ∷ [])
              (AtMost-mono e.max_sock e'.max_sock _ (omega (arith, top)) (v.bound type))
              (omega (arith, top), tt))
            (λ other. AtMost-mono e.max_sock e'.max_sock _ (omega (arith, top)) (v.bound other));
      sorted = rw (add_sock-timeout true type s e) v.sorted;
    }

remove_sock-IsValid :
    (type : EventType) (sock : ℕ) (e : Eloop) → IsValid e → IsValid (remove_sock type sock e)
remove_sock-IsValid type sock e v = elim (remove_sock_lem type sock e (v.fits type)) [
  | inl (absent, same) ↦ rw same v
  | inr (present, u, counted) ↦
      let (timeouts, top) = remove_sock-keeps type sock e in
      let m = (remove_sock type sock e).max_sock in
      let keep = λ (ss : List Sock) (a : AtMost e.max_sock ss).
        AtMost-mono e.max_sock m ss (omega (arith, top)) a in
      record {
        fits = Updates-Fits u v.fits;
        total = remove_sock-Total type sock e v.total;
        bound =
            Updates-AtMost m u (keep _ (AtMost-erase_sock e.max_sock sock _ (v.bound type)))
              (λ other. keep _ (v.bound other));
        sorted = rw timeouts v.sorted;
      }
]

same_tables :
    (ts : List Timeout) (ss : List Signal) (n : ℕ) (p q : Bool) (e : Eloop) (type : EventType)
    → get_table type (record e {
      timeout = ts;
      signals = ss;
      signaled = n;
      pending_terminate = p;
      terminate = q;
    })
      ≡ get_table type e
unfolding get_table
same_tables ts ss n p q e read = refl
same_tables ts ss n p q e write = refl
same_tables ts ss n p q e exception = refl

-- A change of the fields that are no part of a table keeps what is said of the tables.
pub besides_tables :
    (ts : List Timeout) (ss : List Signal) (n : ℕ) (p q : Bool) (e : Eloop)
    → IsValid e
    → IsSorted ts
    → IsValid (record e {
      timeout = ts;
      signals = ss;
      signaled = n;
      pending_terminate = p;
      terminate = q;
    })
besides_tables ts ss n p q e v s = record {
  fits = λ type. rw (same_tables ts ss n p q e type) (v.fits type);
  total = v.total;
  bound = λ type. rw (same_tables ts ss n p q e type) (v.bound type);
  sorted = s;
}

pub with_timeouts :
    (ts : List Timeout) (e : Eloop) → IsValid e → IsSorted ts → IsValid (record e { timeout = ts })
with_timeouts ts e v s =
    besides_tables ts e.signals e.signaled e.pending_terminate e.terminate e v s

-- The first timeout leaves a sorted ring sorted, wherever it stood.
NoneBefore-cancel_one :
    (p : Timeout → Bool) (now b : Reltime) (ts : List Timeout)
    → NoneBefore b ts
    → NoneBefore b (cancel_one_loop p now ts).2
unfolding cancel_one_loop
NoneBefore-cancel_one p now b [] h = tt
NoneBefore-cancel_one p now b (t ∷ ts) h = ground (arith, NoneBefore-cancel_one p now b ts h.1)

cancel_one-IsSorted :
    (p : Timeout → Bool) (now : Reltime) (ts : List Timeout)
    → IsSorted ts
    → IsSorted (cancel_one_loop p now ts).2
unfolding cancel_one_loop
cancel_one-IsSorted p now [] s = tt
cancel_one-IsSorted p now (t ∷ ts) s =
    ground (arith, cancel_one-IsSorted p now ts s.1, NoneBefore-cancel_one p now t.time ts s.0)

pub register_cases :
    (alloc : Bool) (now : Option Reltime) (secs usecs h d u : ℕ) (e : Eloop)
    → let e' = (register_timeout alloc now secs usecs h d u e).1 in
      (e' ≡ e) ⊎ ((n : Timeout) × (e' ≡ record e { timeout = insert n e.timeout }))
unfolding register_timeout
register_cases false now secs usecs h d u e = inl refl
register_cases true none secs usecs h d u e = inl refl
register_cases true (some now) secs usecs h d u e = elim (Option-cases (deadline now secs usecs)) [
  | inl never ↦ inl (ground arith)
  | inr (time, at) ↦
      inr (record { time = time; eloop_data = d; user_data = u; handler = h }, ground arith)
]

register-IsValid :
    (alloc : Bool) (now : Option Reltime) (secs usecs h d u : ℕ) (e : Eloop)
    → IsValid e
    → IsValid (register_timeout alloc now secs usecs h d u e).1
register-IsValid alloc now secs usecs h d u e v =
    elim (register_cases alloc now secs usecs h d u e) [
      | inl same ↦ rw same v
      | inr (n, put) ↦ rw put (with_timeouts _ e v (insert-IsSorted n e.timeout v.sorted))
    ]

cancel-IsValid : (h d u : ℕ) (e : Eloop) → IsValid e → IsValid (cancel_timeout h d u e).1
cancel-IsValid h d u e v =
    rw (cancelled h d u e) (with_timeouts _ e v (reject-IsSorted _ e.timeout v.sorted))

reschedule-IsValid :
    (alloc : Bool) (again : Option Reltime) (secs usecs h d u : ℕ) (e : Eloop)
    → IsValid e
    → IsValid (reschedule alloc again secs usecs h d u e)
unfolding reschedule
reschedule-IsValid alloc again secs usecs h d u e v =
    register-IsValid alloc again secs usecs h d u _ (cancel-IsValid h d u e v)

pub deplete_cases :
    (alloc : Bool) (now : Reltime) (again : Option Reltime) (secs usecs h d u : ℕ) (e : Eloop)
    → let e' = (deplete_timeout alloc now again secs usecs h d u e).1 in
      (e' ≡ e) ⊎ (e' ≡ reschedule alloc again secs usecs h d u e)
unfolding deplete_timeout
deplete_cases alloc now again secs usecs h d u e = ground arith

pub replenish_cases :
    (alloc : Bool) (now : Reltime) (again : Option Reltime) (secs usecs h d u : ℕ) (e : Eloop)
    → let e' = (replenish_timeout alloc now again secs usecs h d u e).1 in
      (e' ≡ e) ⊎ (e' ≡ reschedule alloc again secs usecs h d u e)
unfolding replenish_timeout
replenish_cases alloc now again secs usecs h d u e = ground arith

reschedule_or_same :
    (alloc : Bool) (again : Option Reltime) (secs usecs h d u : ℕ) {e e' : Eloop}
    → (e' ≡ e) ⊎ (e' ≡ reschedule alloc again secs usecs h d u e)
    → IsValid e
    → IsValid e'
reschedule_or_same alloc again secs usecs h d u (inl same) v = rw same v
reschedule_or_same alloc again secs usecs h d u (inr moved) v =
    rw moved (reschedule-IsValid alloc again secs usecs h d u _ v)

-- Every call of the application keeps the invariant, whatever the memory and the clock answer.
pub exec-IsValid : (a : Action) (e : Eloop) → IsValid e → IsValid (exec a e)
unfolding terminate exec register_sock unregister_sock cancel_timeout_one
exec-IsValid (add_fd alloc sock type h d u) e v = add_sock-IsValid alloc type _ e v
exec-IsValid (drop_fd sock type) e v = remove_sock-IsValid type sock e v
exec-IsValid (add_timer alloc now secs usecs h d u) e v =
    register-IsValid alloc now secs usecs h d u e v
exec-IsValid (drop_timers h d u) e v = cancel-IsValid h d u e v
exec-IsValid (drop_timer now h d u) e v =
    with_timeouts _ e v (cancel_one-IsSorted (matches h d u) now e.timeout v.sorted)
exec-IsValid (deplete alloc now again secs usecs h d u) e v =
    reschedule_or_same alloc again secs usecs h d u
      (deplete_cases alloc now again secs usecs h d u e) v
exec-IsValid (replenish alloc now again secs usecs h d u) e v =
    reschedule_or_same alloc again secs usecs h d u
      (replenish_cases alloc now again secs usecs h d u e) v
exec-IsValid stop e v =
    besides_tables e.timeout e.signals e.signaled e.pending_terminate true e v v.sorted

pub exec_all-IsValid :
    (actions : List Action) (e : Eloop) → IsValid e → IsValid (exec_all actions e)
unfolding exec_all
exec_all-IsValid [] e v = v
exec_all-IsValid (a ∷ actions) e v = exec_all-IsValid actions (exec a e) (exec-IsValid a e v)

-- A callback keeps the invariant, whatever it does.
pub call-IsValid :
    (cb : Callback) (c : Call) (w : World) → IsValid w.eloop → IsValid (call cb c w).eloop
unfolding call
call-IsValid cb c w v = exec_all-IsValid (cb w.calls c w.eloop) w.eloop v
