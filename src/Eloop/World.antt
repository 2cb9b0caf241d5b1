-- ===== src/Eloop/World.antt =====
-- Callbacks of eloop/src/eloop.c and what they can see: the loop's state, the alarm of the
-- process, and the calls made so far. A callback is code of the application, so it is a parameter:
-- it answers a call with the functions of eloop.h that it calls: those on descriptors and timeouts, and
-- eloop_terminate. A callback that registers a signal, runs a loop of its own or destroys the loop is
-- left out.
pub mod Invariant
pub mod Preserve
pub mod Tables
use linux_c_code.Base.{ℕ, Bool, true, Option, none, some, List, [], ◌∷◌, ◌++◌}
use linux_c_code.Base.Int.{pos}
use linux_c_code.Eloop.Time.{Reltime}
use linux_c_code.Eloop.State.{EventType, Eloop}
use linux_c_code.Eloop.Table.{register_sock, unregister_sock}
use linux_c_code.Eloop.Timeouts.{
  register_timeout, cancel_timeout, cancel_timeout_one, deplete_timeout, replenish_timeout,
}

-- A call through a handler pointer, with its arguments.
pub data Call : Type 0 where
  sock_call : (handler sock eloop_data user_data : ℕ) → Call
  timeout_call : (handler eloop_data user_data : ℕ) → Call
  signal_call : (handler sig user_data : ℕ) → Call

-- A call of the application into eloop.h, with what the memory and the clock answer. A descriptor
-- passes the assertion of `eloop_register_sock`.
pub data Action : Type 0 where
  add_fd : (alloc : Bool) (sock : ℕ) (type : EventType) (handler eloop_data user_data : ℕ) → Action
  drop_fd : (sock : ℕ) (type : EventType) → Action
  add_timer :
      (alloc : Bool) (now : Option Reltime) (secs usecs handler eloop_data user_data : ℕ) → Action
  drop_timers : (handler eloop_data user_data : ℕ) → Action
  drop_timer : (now : Reltime) (handler eloop_data user_data : ℕ) → Action
  deplete :
      (alloc : Bool) (now : Reltime) (again : Option Reltime)
      (secs usecs handler eloop_data user_data : ℕ)
      → Action
  replenish :
      (alloc : Bool) (now : Reltime) (again : Option Reltime)
      (secs usecs handler eloop_data user_data : ℕ)
      → Action
  stop : Action

-- `eloop_terminate`
unfoldable pub terminate : Eloop → Eloop
terminate e = record e { terminate = true }

-- `eloop_terminated`
unfoldable pub terminated : Eloop → Bool
terminated e = e.terminate

unfoldable pub exec : Action → Eloop → Eloop
exec (add_fd alloc sock type h d u) e = elim (register_sock alloc (pos sock) type h d u e) [
  | none ↦ e
  | some r ↦ r.1
]
exec (drop_fd sock type) e = unregister_sock (pos sock) type e
exec (add_timer alloc now secs usecs h d u) e = (register_timeout alloc now secs usecs h d u e).1
exec (drop_timers h d u) e = (cancel_timeout h d u e).1
exec (drop_timer now h d u) e = (cancel_timeout_one now h d u e).2
exec (deplete alloc now again secs usecs h d u) e =
    (deplete_timeout alloc now again secs usecs h d u e).1
exec (replenish alloc now again secs usecs h d u) e =
    (replenish_timeout alloc now again secs usecs h d u e).1
exec stop e = terminate e

unfoldable pub exec_all : List Action → Eloop → Eloop
exec_all [] e = e
exec_all (a ∷ as') e = exec_all as' (exec a e)

-- `alarm` is true while the SIGALRM of `alarm(2)` is pending.
pub record World : Type 0 where
  pub eloop : Eloop
  pub alarm : Bool
  pub calls : List Call

-- What the application does on each call, by the calls that came before it and the state that it finds.
-- Since no two calls have the same past, what it does, and what memory and clock answer it, can be
-- another each time.
abbrev pub Callback : Type 0
Callback = (past : List Call) → Call → Eloop → List Action

-- A call through a handler pointer.
unfoldable pub call : Callback → Call → World → World
call cb c w = record w {
  eloop = exec_all (cb w.calls c w.eloop) w.eloop;
  calls = w.calls ++ (c ∷ []);
}
