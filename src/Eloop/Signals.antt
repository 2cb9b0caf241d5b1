-- ===== src/Eloop/Signals.antt =====
-- Signals of eloop/src/eloop.c: the handler that only counts, and the loop that makes the calls. The
-- counters are of type int, here as the 32 bits that they have.
pub mod Pending
pub mod Delivery
use linux_c_code.Base.{
  ℕ, zero, suc, ◌+◌, ◌%◌, ◌^◌, Bool, true, false, ◌&&◌, ◌||◌, not, Option, none, some, List, [],
  ◌∷◌, ◌++◌, ◌==◌, if◌then◌else◌, get_elem?, set, length,
}
use linux_c_code.Base.Int.{ℤ, pos, negsuc}
use linux_c_code.Eloop.State.{Signal, Eloop}
use linux_c_code.Eloop.World.{signal_call, World, Callback, call}

abbrev pub sighup : ℕ
sighup = 1

abbrev pub sigint : ℕ
sigint = 2

abbrev pub sigterm : ℕ
sigterm = 15

-- The loop of `eloop_handle_signal`: the first entry for the signal counts it.
unfoldable pub count_signal : ℕ → List Signal → List Signal
count_signal sig [] = []
count_signal sig (s ∷ ss) =
    if s.sig == sig
    then record s { signaled = (s.signaled + 1) % 2 ^ 32 } ∷ ss
    else s ∷ count_signal sig ss

-- `eloop_handle_signal`, which the kernel calls at any point of the program.
unfoldable pub handle_signal : ℕ → World → World
unfolding count_signal
handle_signal sig w =
    let e = w.eloop in
    let first = (sig == sigint || sig == sigterm) && not e.pending_terminate in
    record w {
      alarm = (if first then true else w.alarm);
      eloop = record e {
        pending_terminate = (if first then true else e.pending_terminate);
        signaled = (e.signaled + 1) % 2 ^ 32;
        signals = count_signal sig e.signals;
      };
    }

-- The body of the loop of `eloop_process_pending_signals` for the entry `s` at `i`.
unfoldable pub process_signal : Callback → ℕ → Signal → World → World
process_signal cb i s w =
    if s.signaled == 0
    then w
    else call cb (signal_call s.handler s.sig s.user_data) (record w {
      eloop = record w.eloop { signals = set w.eloop.signals i (record s { signaled = 0 }) };
    })

-- The loop itself, with `n` rounds left.
unfoldable pub process_loop : Callback → ℕ → ℕ → World → World
unfolding process_signal
process_loop cb zero i w = w
process_loop cb (suc n) i w = elim (get_elem? w.eloop.signals i) [
  | none ↦ w
  | some s ↦ process_loop cb n (i + 1) (process_signal cb i s w)
]

-- `eloop_process_pending_signals`. `Action` registers no signal, so `signal_count` stays.
unfoldable pub process_pending_signals : Callback → World → World
unfolding process_loop
process_pending_signals cb w =
    if w.eloop.signaled == 0
    then w
    else process_loop cb (length w.eloop.signals) 0 (record w {
      alarm = (if w.eloop.pending_terminate then false else w.alarm);
      eloop = record w.eloop { signaled = 0; pending_terminate = false };
    })

-- `eloop_register_signal`; `alloc` tells whether `os_realloc_array` returned memory.
unfoldable pub register_signal : Bool → (sig handler user_data : ℕ) → Eloop → ℤ × Eloop
register_signal alloc sig handler user_data e =
    if alloc
    then (
      pos 0,
      record e {
        signals =
            e.signals
            ++ (record { sig = sig; user_data = user_data; handler = handler; signaled = 0 } ∷ []);
      },
    )
    else (negsuc 0, e)

-- `eloop_register_signal_terminate`, with what the two allocations return.
unfoldable pub register_signal_terminate :
    (first second : Bool) → (handler user_data : ℕ) → Eloop → ℤ × Eloop
unfolding register_signal
register_signal_terminate first second handler user_data e =
    let (ret, e') = register_signal first sigint handler user_data e in
    elim ret [
      | pos zero ↦ register_signal second sigterm handler user_data e'
      | other ↦ (other, e')
    ]

-- `eloop_register_signal_reconfig`
unfoldable pub register_signal_reconfig : Bool → (handler user_data : ℕ) → Eloop → ℤ × Eloop
unfolding register_signal
register_signal_reconfig alloc = register_signal alloc sighup

-- Signals that arrive one after the other.
unfoldable pub deliver : List ℕ → World → World
deliver [] w = w
deliver (sig ∷ sigs) w = deliver sigs (handle_signal sig w)
