-- ===== src/Eloop/Poll.antt =====
-- The build of eloop/src/eloop.c with CONFIG_ELOOP_POLL: how the three tables become the array that
-- `poll` is given. The arrays are functions from their indices; `max_poll_fds` and `max_pollfd_map` are
-- their lengths, and `none` is an access outside of them or an assertion that fails.
pub mod Asked
pub mod Loops
mod Tests
use linux_c_code.Base.{
  ℕ, zero, suc, ◌+◌, Bool, true, false, ◌&&◌, Option, none, some, List, [], ◌∷◌, ltb, ◌==◌,
  if◌then◌else◌,
}
use linux_c_code.Eloop.State.{Sock}

-- `struct pollfd`, with POLLIN and POLLOUT of its `events`.
pub record Pollfd : Type 0 where
  pub fd : ℕ
  pub pollin : Bool
  pub pollout : Bool
  pub revents : ℕ

-- `pollfds`, `pollfds_map` with the index that a pointer stands for, and `nxt`.
pub record Polls : Type 0 where
  pub pollfds : ℕ → Pollfd
  pub map : ℕ → Option ℕ
  pub nxt : ℕ

unfoldable pub write {ℓ} : {A : Type ℓ} → (ℕ → A) → ℕ → A → ℕ → A
write f i v j = if j == i then v else f j

-- A new entry at `nxt`, with the pointer to it.
unfoldable pub enter : ℕ → Pollfd → Polls → Polls
enter fd pfd p = record p {
  pollfds = write p.pollfds p.nxt pfd;
  map = write p.map fd (some p.nxt);
  nxt = p.nxt + 1;
}

-- `pollfds[i].revents = 0`
unfoldable pub reset_revents : ℕ → Polls → Polls
reset_revents i p = record p { pollfds = write p.pollfds i (record (p.pollfds i) { revents = 0 }) }

-- The loops over writers and exceptions, from round `i`.
unfoldable pub add_all : (ℕ → Sock → Polls → Option Polls) → ℕ → List Sock → Polls → Option Polls
add_all add i [] p = some p
add_all add i (s ∷ ss) p = elim (add i s p) [ none ↦ none | some q ↦ add_all add (i + 1) ss q ]

module _ (max_poll_fds max_pollfd_map : ℕ) where
  -- A round of the loop over the readers.
  unfoldable pub add_reader : Sock → Polls → Option Polls
  add_reader s p =
      if ltb s.sock max_pollfd_map && ltb p.nxt max_poll_fds
      then some
          (enter s.sock (record { fd = s.sock; pollin = true; pollout = false; revents = 0 }) p)
      else none

  -- Round `i` of the loop over the writers. A new entry keeps its `revents`: what is reset is entry `i`.
  unfoldable pub add_writer : ℕ → Sock → Polls → Option Polls
  add_writer i s p = elim (p.map s.sock) [
    | none ↦
        if ltb s.sock max_pollfd_map && ltb p.nxt max_poll_fds && ltb i max_poll_fds
        then some (
            reset_revents i (
              enter s.sock
                (record (p.pollfds p.nxt) { fd = s.sock; pollin = false; pollout = true }) p))
        else none
    | some j ↦
        if ltb s.sock max_pollfd_map
        then some
            (record p { pollfds = write p.pollfds j (record (p.pollfds j) { pollout = true }) })
        else none
  ]

  -- Round `i` of the loop over the exceptions.
  unfoldable pub add_exception : ℕ → Sock → Polls → Option Polls
  add_exception i s p = elim (p.map s.sock) [
    | none ↦
        if ltb s.sock max_pollfd_map && ltb p.nxt max_poll_fds && ltb i max_poll_fds
        then some (
            reset_revents i (
              enter s.sock
                (record (p.pollfds p.nxt) { fd = s.sock; pollin = true; pollout = false }) p))
        else none
    | some j ↦ if ltb s.sock max_pollfd_map then some p else none
  ]

  unfoldable pub add_readers : List Sock → Polls → Option Polls
  add_readers [] p = some p
  add_readers (s ∷ ss) p = elim (add_reader s p) [ none ↦ none | some q ↦ add_readers ss q ]

  -- `eloop_sock_table_set_fds` of this build, over the entries in use. A table that is NULL is empty.
  unfoldable pub poll_fds :
      (memory : ℕ → Pollfd) → (readers writers exceptions : List Sock) → Option Polls
  poll_fds memory readers writers exceptions =
      let cleared : Polls = record { pollfds = memory; map = λ fd. none; nxt = 0 } in
      elim (add_readers readers cleared) [
        | none ↦ none
        | some p ↦ elim (add_all add_writer 0 writers p) [
          | none ↦ none
          | some q ↦ add_all add_exception 0 exceptions q
        ]
      ]
