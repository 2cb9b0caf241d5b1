-- ===== src/Eloop/Destroy.antt =====
-- `eloop_destroy` of eloop/src/eloop.c: what it reports as left over, and what it frees.
use linux_c_code.Base.{◌+◌, ◌*◌, ◌<◌, ◌≡◌, List, [], ◌++◌, if◌then◌else◌, map, arith}
use linux_c_code.Base.Int.{ℤ, pos, ◌+ℤ◌, ◌-ℤ◌, ltb_ℤ, pos_part, neg_part, ◌≤ℤ◌}
use linux_c_code.Eloop.Time.{Reltime}
use linux_c_code.Eloop.Time.Order.{IsNormal}
use linux_c_code.Eloop.State.{Sock, SockTable, Timeout, Eloop, live}

-- What is left of a timeout, in seconds and microseconds; both are taken to fit an `int`.
unfoldable pub remaining : (now : Reltime) → Timeout → ℤ × ℤ
remaining now t =
    let sec = t.time.sec -ℤ now.sec in
    let usec = t.time.usec -ℤ now.usec in
    if ltb_ℤ t.time.usec now.usec then (sec -ℤ pos 1, usec +ℤ pos 1_000_000) else (sec, usec)

-- What `eloop_destroy` reports: the timeouts with what is left of them, and the sockets.
pub record Report : Type 0 where
  pub timeouts : List (ℤ × ℤ)
  pub socks : List Sock

-- `eloop_sock_table_destroy`: the entries that it reports. The array is freed, but the table keeps its
-- count and its pointer.
unfoldable pub sock_table_destroy : SockTable → List Sock
sock_table_destroy t = live t

-- `eloop_destroy`: the report, and the state. The timeouts are removed one by one; the arrays are freed,
-- but their pointers and counts stay.
unfoldable pub destroy : (now : Reltime) → Eloop → Report × Eloop
destroy now e = (
  record {
    timeouts = map (remaining now) e.timeout;
    socks =
        sock_table_destroy e.readers
        ++ (sock_table_destroy e.writers ++ sock_table_destroy e.exceptions);
  },
  record e { timeout = [] },
)

-- For times in normal form, what is reported of a timeout has microseconds from 0 to 999999, and
-- together with the present time it is the time of the timeout.
pub remaining_lem :
    (now : Reltime) (t : Timeout)
    → IsNormal now
    → IsNormal t.time
    → (pos 0 ≤ℤ (remaining now t).1)
      × (pos_part (remaining now t).1 < 1_000_000)
      × (pos_part (remaining now t).0 * 1_000_000
            + pos_part (remaining now t).1
            + (pos_part now.sec * 1_000_000 + pos_part now.usec)
            + neg_part t.time.sec * 1_000_000
          ≡ pos_part t.time.sec * 1_000_000
            + pos_part t.time.usec
            + neg_part (remaining now t).0 * 1_000_000
            + neg_part now.sec * 1_000_000)
unfolding remaining ◌-ℤ◌ ◌+ℤ◌
remaining_lem now t h k =
    let a = h.nonneg in
    let b = h.small in
    let c = k.nonneg in let d = k.small in (ground arith, ground arith, ground arith)
