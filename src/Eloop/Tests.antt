-- ===== src/Eloop/Tests.antt =====
-- Runs of the event loop of eloop/src/eloop.c on small states, and its theorems at these states.
use linux_c_code.Base.{
  ℕ, ◌≡◌, ◌<◌, ◌+◌, refl, arith, true, false, Option, none, some, List, [], ◌∷◌, ◌++◌, ◌==◌, ◌⊎◌,
  ◌*◌, ◌||◌, if◌then◌else◌,
}
use linux_c_code.Base.Int.{negsuc, pos, pos_part, ◌+ℤ◌, ◌-ℤ◌}
use linux_c_code.Eloop.Time.{
  Reltime, before, sub, Timespec, ClockId, boottime, monotonic, realtime, add_long, to_int,
}
use linux_c_code.Eloop.Time.Order.{IsNormal}
use linux_c_code.Eloop.State.{
  all_ctx, Sock, SockTable, EventType, read, write, Timeout, Signal, Eloop, init, get_table, live,
  exception,
}
use linux_c_code.Eloop.Table.{wait_for_read_sock, add_sock, set_fds, FdSet}
use linux_c_code.Eloop.Table.Refine.{Fits, add_sock_lem, Absent, Present, remove_sock_lem}
use linux_c_code.Eloop.Table.Gap.{has_sock}
use linux_c_code.Eloop.Table.Fds.{set_fds_lem, all_fit}
use linux_c_code.Eloop.Timeouts.{
  deadline, insert, cancel_timeout, cancel_timeout_one, deplete_timeout, requested, matches,
  matches_any, carry, cancel_loop, cancel_one_loop, find,
}
use linux_c_code.Eloop.Timeouts.Deadline.{deadline_lem}
use linux_c_code.Eloop.Timeouts.Sorted.{IsSorted, Placed, insert_lem}
use linux_c_code.Eloop.Timeouts.Cancel.{Cancelled, cancel_timeout_lem}
use linux_c_code.Eloop.Timeouts.Deplete.{Depleted, deplete_timeout_lem}
use linux_c_code.Eloop.World.{
  terminate, terminated, sock_call, timeout_call, signal_call, World, Callback, drop_fd, stop,
}
use linux_c_code.Eloop.World.Invariant.{IsValid, AtMost}
use linux_c_code.Eloop.Signals.{sigint, sigterm, sighup, process_pending_signals, deliver}
use linux_c_code.Eloop.Signals.Delivery.{calls_for, deliver-process}
use linux_c_code.Eloop.Run.{Round, failure, ready, dispatch, fire_timeout, run}
use linux_c_code.Eloop.Run.Dispatch.{ready_calls, Dispatched, dispatch_lem}
use linux_c_code.Eloop.Run.Timer.{Fired, fire_timeout_lem}
use linux_c_code.Eloop.Run.Safety.{state, run-IsValid}

abbrev at : ℕ → ℕ → Reltime
at s u = record { sec = pos s; usec = pos u }

at-IsNormal : (s u : ℕ) → u < 1_000_000 → IsNormal (at s u)
at-IsNormal s u h = record { nonneg = ground arith; small = h }

-- A system without the boot-time clock.
abbrev old_clock : ClockId → Option Timespec
old_clock boottime = none
old_clock monotonic = some (record { tv_sec = pos 7; tv_nsec = 5_000 })
old_clock realtime = none

abbrev sock_at : ℕ → Sock
sock_at n = record { sock = n; eloop_data = 1; user_data = 2; handler = 10 + n }

abbrev two_socks : SockTable
two_socks = record { count = 2; cells = sock_at 4 ∷ sock_at 7 ∷ sock_at 9 ∷ []; changed = false }

abbrev timer : ℕ → ℕ → Timeout
timer s h = record { time = at s 0; eloop_data = 1; user_data = 2; handler = h }

abbrev entry : ℕ → ℕ → Signal
entry sig h = record { sig = sig; user_data = 3; handler = h; signaled = 0 }

abbrev busy : Eloop
busy = record init {
  max_sock = 9;
  count = 2;
  readers = two_socks;
  timeout = timer 5 20 ∷ timer 8 21 ∷ [];
  signals = entry sigint 30 ∷ entry sighup 31 ∷ [];
}

busy-Fits : Fits (get_table read busy)
unfolding get_table
busy-Fits = record { within = omega arith }

add_sock_example : (add_sock true read (sock_at 12) busy).0 ≡ pos 0
add_sock_example = (add_sock_lem read (sock_at 12) busy busy-Fits).0

remove_sock_example : Absent read 4 busy ⊎ Present read 4 busy
remove_sock_example = remove_sock_lem read 4 busy busy-Fits

set_fds_run : (fds : FdSet) × (set_fds two_socks ≡ some fds)
unfolding set_fds
set_fds_run = (_, refl)

set_fds_example :
    ((all_fit (live two_socks) ≡ false) × (set_fds two_socks ≡ none))
    ⊎ ((fds : FdSet) × (all_fit (live two_socks) ≡ true)
        × (set_fds two_socks ≡ some fds)
        × ((k : ℕ) → fds k ≡ has_sock k (live two_socks)))
set_fds_example = set_fds_lem two_socks

deadline_run : deadline (at 100 999_999) 5 2 ≡ some (at 106 1)
unfolding deadline carry add_long to_int ◌+ℤ◌ ◌-ℤ◌
deadline_run = refl

deadline_example :
    (t : Reltime) × (deadline (at 100 999_999) 5 2 ≡ some t)
    × IsNormal t
    × (pos_part t.sec * 1_000_000 + pos_part t.usec ≡ (100 + 5) * 1_000_000 + (999_999 + 2))
deadline_example =
    deadline_lem 100 999_999 5 2 (omega arith) (omega arith) (omega arith) (omega arith)

busy-IsSorted : IsSorted busy.timeout
unfolding before
busy-IsSorted = ((refl, tt), (tt, tt))

insert_run : insert (timer 5 22) busy.timeout ≡ timer 5 20 ∷ timer 5 22 ∷ timer 8 21 ∷ []
unfolding insert before
insert_run = refl

insert_example :
    Placed (timer 5 22) busy.timeout (insert (timer 5 22) busy.timeout)
    × IsSorted (insert (timer 5 22) busy.timeout)
insert_example = insert_lem (timer 5 22) busy.timeout busy-IsSorted

cancel_timeout_example :
    let (removed, e') = cancel_timeout 20 all_ctx 2 busy in
    Cancelled 20 all_ctx 2 busy.timeout e'.timeout removed
    × (e' ≡ record busy { timeout = e'.timeout })
    × IsSorted e'.timeout
cancel_timeout_example = cancel_timeout_lem 20 all_ctx 2 busy busy-IsSorted

cancel_timeout_run : (cancel_timeout 20 1 2 busy).0 ≡ 1
unfolding cancel_timeout cancel_loop matches_any
cancel_timeout_run = refl

cancel_timeout_one_run : (cancel_timeout_one (at 3 0) 21 1 2 busy).1 ≡ at 5 0
unfolding cancel_timeout_one cancel_one_loop matches before sub ◌-ℤ◌
cancel_timeout_one_run = refl

one_second : deadline (at 2 0) 1 0 ≡ some (at 3 0)
unfolding deadline carry add_long to_int ◌+ℤ◌ ◌-ℤ◌
one_second = refl

nine_seconds : deadline (at 2 0) 9 0 ≡ some (at 11 0)
unfolding deadline carry add_long to_int ◌+ℤ◌ ◌-ℤ◌
nine_seconds = refl

found_20 : find (matches 20 1 2) busy.timeout ≡ some (timer 5 20)
unfolding find matches
found_20 = refl

far_20 : before (requested 1 0) (sub (at 5 0) (at 2 0)) ≡ true
unfolding before sub to_int ◌-ℤ◌
far_20 = refl

deplete_timeout_example :
    Depleted 1 0 20 1 2
      (at 2 0)
      (at 2 5)
      busy
      (deplete_timeout true (at 2 0) (some (at 2 5)) 1 0 20 1 2 busy)
deplete_timeout_example =
    deplete_timeout_lem 1 0 20 1 2 2 0 2 5 busy busy-IsSorted
      ((5, 0, refl, omega arith), ((8, 0, refl, omega arith), tt)) (omega arith) (omega arith)
      (omega arith) (omega arith) (omega arith)

busy-IsValid : IsValid busy
unfolding get_table init
busy-IsValid = record { fits = fits; total = refl; bound = bound; sorted = busy-IsSorted }
  where
    fits : (type : EventType) → Fits (get_table type busy)
    fits read = record { within = omega arith }
    fits write = record { within = omega arith }
    fits exception = record { within = omega arith }

    bound : (type : EventType) → AtMost 9 (live (get_table type busy))
    bound read = (omega arith, (omega arith, tt))
    bound write = tt
    bound exception = tt

-- An application whose handler of descriptor 4 unregisters it, and whose handler 20 stops the loop.
abbrev app : Callback
app past (sock_call h s d u) e = if h == 14 then drop_fd s read ∷ [] else []
app past (timeout_call h d u) e = if h == 20 then stop ∷ [] else []
app past (signal_call h s u) e = []

abbrev start : World
start = record { eloop = busy; alarm = false; calls = [] }

deliver_example :
    (process_pending_signals app (deliver (sigint ∷ sigterm ∷ sigint ∷ []) start)).calls
    ≡ [] ++ calls_for (sigint ∷ sigterm ∷ sigint ∷ []) busy.signals
unfolding init
deliver_example =
    deliver-process app (sigint ∷ sigterm ∷ sigint ∷ []) start ((refl, tt), (tt, tt))
      (refl, (refl, tt)) refl (omega arith)

abbrev both : FdSet
both k = k == 4 || k == 7

dispatch_example :
    Dispatched app read
      (get_table read busy)
      (ready_calls both (live (get_table read busy)))
      start
      (dispatch app read both start)
dispatch_example = dispatch_lem app read both start busy-Fits

fire_timeout_example : Fired app (at 6 0) start (fire_timeout app (at 6 0) start)
fire_timeout_example = fire_timeout_lem app (at 6 0) start busy-IsSorted

-- A round in which descriptor 4 is ready, then one in which the first timeout is due.
abbrev rounds : List Round
rounds =
    record { arrived = []; answer = ready 1 both (λ _. false) (λ _. false); now = at 3 0 }
    ∷ record { arrived = sigint ∷ []; answer = failure 4; now = at 6 0 }
    ∷ []

run_example : IsValid (state (run true app rounds start))
run_example = run-IsValid true app rounds start busy-IsValid

terminated_run : terminated (terminate busy) ≡ true
unfolding terminated terminate
terminated_run = refl

wait_for_read_sock_run : wait_for_read_sock (negsuc 0) ≡ none
unfolding wait_for_read_sock
wait_for_read_sock_run = refl
