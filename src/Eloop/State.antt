-- ===== src/Eloop/State.antt =====
-- The data of eloop/src/eloop.c: `struct eloop_data` and what it holds. Pointers (handlers and the
-- two context arguments) are numbers, `int` counters are numbers bounded by the memory they count.
use linux_c_code.Base.{ℕ, ◌-◌, ◌^◌, Bool, false, List, [], take}
use linux_c_code.Eloop.Time.{Reltime}

-- `struct eloop_sock`
pub record Sock : Type 0 where
  pub sock : ℕ
  pub eloop_data : ℕ
  pub user_data : ℕ
  pub handler : ℕ

-- `struct eloop_timeout`, less its list link.
pub record Timeout : Type 0 where
  pub time : Reltime
  pub eloop_data : ℕ
  pub user_data : ℕ
  pub handler : ℕ

-- `struct eloop_signal`
pub record Signal : Type 0 where
  pub sig : ℕ
  pub user_data : ℕ
  pub handler : ℕ
  pub signaled : ℕ

-- `struct eloop_sock_table`. `cells` is the allocated array: it may be longer than `count`, and it
-- is empty exactly for a NULL pointer.
pub record SockTable : Type 0 where
  pub count : ℕ
  pub cells : List Sock
  pub changed : Bool

-- `eloop_event_type`
pub data EventType : Type 0 where
  read write exception : EventType

-- `struct eloop_data` as CONFIG_ELOOP_SELECT compiles it. `timeout` is the ring of timeouts in the
-- order of its `next` pointers.
pub record Eloop : Type 0 where
  pub max_sock : ℕ
  pub count : ℕ
  pub readers : SockTable
  pub writers : SockTable
  pub exceptions : SockTable
  pub timeout : List Timeout
  pub signals : List Signal
  pub signaled : ℕ
  pub pending_terminate : Bool
  pub terminate : Bool

abbrev pub empty_table : SockTable
empty_table = record { count = 0; cells = []; changed = false }

-- `eloop_init`
unfoldable pub init : Eloop
init = record {
  max_sock = 0;
  count = 0;
  readers = empty_table;
  writers = empty_table;
  exceptions = empty_table;
  timeout = [];
  signals = [];
  signaled = 0;
  pending_terminate = false;
  terminate = false;
}

-- `eloop_get_sock_table`
unfoldable pub get_table : EventType → Eloop → SockTable
get_table read e = e.readers
get_table write e = e.writers
get_table exception e = e.exceptions

-- A write through the pointer that `eloop_get_sock_table` returned.
unfoldable pub set_table : EventType → SockTable → Eloop → Eloop
set_table read t e = record e { readers = t }
set_table write t e = record e { writers = t }
set_table exception t e = record e { exceptions = t }

-- The entries in use.
abbrev pub live : SockTable → List Sock
live t = take t.count t.cells

-- `ELOOP_ALL_CTX`, `(void *) -1`.
abbrev pub all_ctx : ℕ
all_ctx = 2 ^ 64 - 1
