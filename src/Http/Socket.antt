-- ===== src/Http/Socket.antt =====
-- The socket calls of httpclient/src/http.c with what the kernel answers: waiting, the errors that
-- are tried again, and the transfer loop.
pub mod Transfer
pub mod Ending
use linux_c_code.Base.{
  ℕ, zero, suc, ◌+◌, Bool, true, false, ◌||◌, Option, none, some, List, [], ◌∷◌, ltb, ◌==◌,
  if◌then◌else◌, length, take,
}
use linux_c_code.Base.Int.{ℤ, pos, negsuc, ◌-ℤ◌, ltb_ℤ}

-- What one call of `select` answers.
pub data Wait : Type 0 where
  timed_out : Wait
  -- The socket is ready; whether `getsockopt` reports no error.
  ready : (fine : Bool) → Wait
  -- EINTR, with the milliseconds since the start.
  interrupted : (elapsed : ℤ) → Wait
  broken : Wait

-- The loop of `socket_select`: whether it returns 0. `none`: the answers ran out.
unfoldable pub select_loop : (timeout remaind : ℤ) → List Wait → Option Bool
select_loop timeout remaind [] = if ltb_ℤ (pos 0) remaind then none else some false
select_loop timeout remaind (timed_out ∷ ws) = some false
select_loop timeout remaind (ready fine ∷ ws) = some (if ltb_ℤ (pos 0) remaind then fine else false)
select_loop timeout remaind (interrupted elapsed ∷ ws) =
    let rest = select_loop timeout (timeout -ℤ elapsed) ws in
    if ltb_ℤ (pos 0) remaind then rest else some false
select_loop timeout remaind (broken ∷ ws) = some false

-- `socket_select`
unfoldable pub socket_select : ℤ → List Wait → Option Bool
socket_select timeout ws = select_loop timeout timeout ws

abbrev pub eintr : ℕ
eintr = 4

abbrev pub ewouldblock : ℕ
ewouldblock = 11

abbrev pub einprogress : ℕ
einprogress = 115

-- `http_check_error` of a plain socket: whether it returns 0.
unfoldable pub check_error : (timeout : ℤ) → (errno : ℕ) → List Wait → Option Bool
check_error timeout errno ws =
    if errno == eintr
    then some true
    else (if errno == einprogress || errno == ewouldblock
        then socket_select timeout ws
        else some false)

-- What one call of `send` or `recv` answers: a number of bytes, or an error with the answers of the
-- `select` that follows it.
pub data Reply : Type 0 where
  count : (r : ℕ) → Reply
  error : (errno : ℕ) (waits : List Wait) → Reply

-- How the transfer ends: the result, and how many bytes have been moved.
pub record Ended : Type 0 where
  pub result : ℤ
  pub moved : ℕ

-- The loop of `http_read_write` for `len` bytes, of which `n` are moved. `none`: the answers ran out.
unfoldable pub transfer : (exit : Bool) → (timeout : ℤ) → (len n : ℕ) → List Reply → Option Ended
transfer exit timeout len n [] = none
transfer exit timeout len n (count zero ∷ rs) =
    some (record { result = (if exit then negsuc 0 else pos n); moved = n })
transfer exit timeout len n (count (suc r) ∷ rs) =
    let m = n + suc r in
    let rest = transfer exit timeout len m rs in
    if exit
    then some (record { result = negsuc 0; moved = n })
    else (if ltb m len then rest else some (record { result = pos m; moved = m }))
transfer exit timeout len n (error errno ws ∷ rs) =
    let rest = transfer exit timeout len n rs in
    if exit
    then some (record { result = negsuc 0; moved = n })
    else (elim (check_error timeout errno ws) [
      | none ↦ none
      | some true ↦ if ltb n len then rest else some (record { result = pos n; moved = n })
      | some false ↦ some (record { result = negsuc 0; moved = n })
    ])

-- `http_read_write`
unfoldable pub read_write : (exit : Bool) → (timeout : ℤ) → (len : ℕ) → List Reply → Option Ended
read_write exit timeout len rs = transfer exit timeout len 0 rs
