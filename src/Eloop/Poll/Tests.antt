-- ===== src/Eloop/Poll/Tests.antt =====
-- The array for `poll` of eloop/src/eloop.c for three small tables.
use linux_c_code.Base.{Option, none, ℕ, ◌≤◌, ◌≡◌, refl, false, some, List, [], ◌∷◌, arith}
use linux_c_code.Eloop.State.{Sock}
use linux_c_code.Eloop.Poll.{
  Pollfd, Polls, write, enter, reset_revents, add_reader, add_writer, add_readers, add_all,
  poll_fds,
}
use linux_c_code.Eloop.Poll.Asked.{asked, IsLinked}
use linux_c_code.Eloop.Poll.Loops.{within, wanted, poll_fds_lem}

abbrev waiting_on : ℕ → Sock
waiting_on fd = record { sock = fd; eloop_data = 0; user_data = 0; handler = 0 }

-- Memory from an earlier use.
abbrev used_memory : ℕ → Pollfd
used_memory i = record { fd = 9; pollin = false; pollout = false; revents = 77 }

abbrev readers_example : List Sock
readers_example = waiting_on 3 ∷ waiting_on 5 ∷ []

abbrev writers_example : List Sock
writers_example = waiting_on 5 ∷ waiting_on 4 ∷ []

poll_fds_example :
    (p : Polls) × (poll_fds 5 8 used_memory readers_example writers_example (waiting_on 6 ∷ [])
      ≡ some p)
    × (p.nxt ≤ 5)
    × IsLinked p
    × ((fd : ℕ) → asked p fd ≡ wanted readers_example writers_example (waiting_on 6 ∷ []) fd)
unfolding within
poll_fds_example =
    poll_fds_lem 5 8 used_memory readers_example writers_example (waiting_on 6 ∷ []) refl refl refl
      (omega arith)

abbrev revents_at : ℕ → List Sock → List Sock → Option ℕ
revents_at i readers writers = elim (poll_fds 5 8 used_memory readers writers []) [
  | none ↦ none
  | some p ↦ some ((p.pollfds i).revents)
]

-- The entry of the second writer keeps the old `revents`.
revents_kept : revents_at 2 readers_example writers_example ≡ some 77
unfolding poll_fds add_readers add_reader add_all add_writer write enter reset_revents
revents_kept = refl
