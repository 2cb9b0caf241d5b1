-- ===== src/Eloop/Run.antt =====
-- `eloop_run` of eloop/src/eloop.c: one round of the loop, and the loop over what the kernel answers
-- in each round.
pub mod Dispatch
pub mod Timer
pub mod Parts
pub mod Safety
use linux_c_code.Base.{
  ℕ, zero, suc, ◌+◌, Bool, true, false, ◌&&◌, ◌||◌, not, Option, none, some, List, [], ◌∷◌, ltb,
  ◌==◌, if◌then◌else◌, get_elem?,
}
use linux_c_code.Base.Int.{pos}
use linux_c_code.Eloop.Time.{Reltime, before, sub}
use linux_c_code.Eloop.State.{
  Sock, SockTable, EventType, read, write, exception, Timeout, Eloop, get_table, set_table,
}
use linux_c_code.Eloop.Table.{is_nil, FdSet, set_fds}
use linux_c_code.Eloop.Timeouts.{zero_time}
use linux_c_code.Eloop.World.{sock_call, timeout_call, World, Callback, call}
use linux_c_code.Eloop.Signals.{deliver, process_pending_signals}

abbrev pub call_sock : Callback → Sock → World → World
call_sock cb s w = call cb (sock_call s.handler s.sock s.eloop_data s.user_data) w

-- The loop of `eloop_sock_table_dispatch` with `n` rounds left: the table is read again in each
-- round, and a callback that changes it ends the loop.
unfoldable pub dispatch_loop : Callback → EventType → FdSet → ℕ → ℕ → World → World
dispatch_loop cb type fds zero i w = w
dispatch_loop cb type fds (suc n) i w =
    let t = get_table type w.eloop in
    let skip = dispatch_loop cb type fds n (i + 1) w in
    elim (if ltb i t.count then get_elem? t.cells i else none) [
      | none ↦ w
      | some s ↦
          let w' = call_sock cb s w in
          let next = dispatch_loop cb type fds n (i + 1) w' in
          if fds s.sock then (if (get_table type w'.eloop).changed then w' else next) else skip
    ]

-- `eloop_sock_table_dispatch`. As many rounds as there are entries suffice, since a table that a
-- callback leaves unchanged keeps its length.
unfoldable pub dispatch : Callback → EventType → FdSet → World → World
dispatch cb type fds w =
    let t = get_table type w.eloop in
    if is_nil t.cells
    then w
    else dispatch_loop cb type fds t.count 0
        (record w { eloop = set_table type (record t { changed = false }) w.eloop })

-- The time that `select` may wait at most; `none` for the NULL of a ring without timeouts. `now` is
-- what `os_get_reltime` reads.
unfoldable pub wait_time : (now : Reltime) → List Timeout → Option Reltime
wait_time now [] = none
wait_time now (t ∷ ts) = some (if before now t.time then sub t.time now else zero_time)

-- The first timeout, if it is due, leaves the ring before its handler is called.
unfoldable pub fire_timeout : Callback → (now : Reltime) → World → World
fire_timeout cb now w = elim w.eloop.timeout [
  | [] ↦ w
  | t ∷ ts ↦
      if before now t.time
      then w
      else call cb (timeout_call t.handler t.eloop_data t.user_data)
          (record w { eloop = record w.eloop { timeout = ts } })
]

-- What `select` answers: an error with its `errno`, or the number of descriptors and the three sets.
pub data Answer : Type 0 where
  failure : (errno : ℕ) → Answer
  ready : (n : ℕ) (rfds wfds efds : FdSet) → Answer

-- What the kernel does in one round: the signals that arrive, the answer of `select`, and the
-- reading of the clock after it. The reading before it only bounds the wait.
pub record Round : Type 0 where
  pub arrived : List ℕ
  pub answer : Answer
  pub now : Reltime

pub data Outcome : Type 0 where
  -- The condition of the loop failed: `eloop_run` returns with `terminate` reset.
  finished : World → Outcome
  -- `goto out`: no memory for the sets, or an error of `select`.
  failed : World → Outcome
  -- A descriptor does not fit an `fd_set`.
  overflow : World → Outcome
  -- The loop waits in `select`.
  waiting : World → Outcome

-- The condition of the `while` loop.
unfoldable pub keep_going : Eloop → Bool
keep_going e =
    not e.terminate
    && (not (is_nil e.timeout)
        || (ltb 0 e.readers.count || (ltb 0 e.writers.count || ltb 0 e.exceptions.count)))

abbrev pub eintr : ℕ
eintr = 4

-- Whether an `errno` ends the loop.
abbrev pub is_fatal : ℕ → Bool
is_fatal errno = not (errno == eintr) && not (errno == 0)

-- Whether the three calls of `eloop_sock_table_set_fds` stay inside their sets.
unfoldable pub sets_fit : Eloop → Bool
sets_fit e = elim (set_fds e.readers) [
  | none ↦ false
  | some r ↦ elim (set_fds e.writers) [
    | none ↦ false
    | some w ↦ elim (set_fds e.exceptions) [ none ↦ false | some x ↦ true ]
  ]
]

-- The round from `eloop_process_pending_signals` on.
unfoldable pub serve : Callback → Round → World → World
serve cb r w =
    let w1 = fire_timeout cb r.now (process_pending_signals cb w) in
    elim r.answer [
      | failure errno ↦ w1
      | ready n rfds wfds efds ↦
          if n == 0
          then w1
          else dispatch cb exception efds (dispatch cb write wfds (dispatch cb read rfds w1))
    ]

abbrev pub answer_is_fatal : Answer → Bool
answer_is_fatal (failure errno) = is_fatal errno
answer_is_fatal (ready n rfds wfds efds) = false

-- The `while` loop, for the rounds that the kernel answers.
unfoldable pub run_loop : Callback → List Round → World → Outcome
run_loop cb [] w =
    if keep_going w.eloop
    then (if sets_fit w.eloop then waiting w else overflow w)
    else finished (record w { eloop = record w.eloop { terminate = false } })
run_loop cb (r ∷ rounds) w =
    let w1 = deliver r.arrived w in
    let rest = run_loop cb rounds (serve cb r w1) in
    if keep_going w.eloop
    then (if sets_fit w.eloop
        then (if answer_is_fatal r.answer then failed w1 else rest)
        else overflow w)
    else finished (record w { eloop = record w.eloop { terminate = false } })

-- `eloop_run`; `alloc` tells whether the memory for the three sets is there.
unfoldable pub run : (alloc : Bool) → Callback → List Round → World → Outcome
run alloc cb rounds w = if alloc then run_loop cb rounds w else failed w
