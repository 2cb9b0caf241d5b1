-- ===== src/Eloop/Poll/Asked.antt =====
-- What `poll` is asked for each descriptor, in the build of eloop/src/eloop.c with CONFIG_ELOOP_POLL.
use linux_c_code.Base.{
  ℕ, ◌+◌, ◌<◌, ◌≤◌, ◌≡◌, refl, sym, ◌∙◌, Bool, true, false, Option, none, some, ◌==◌, if◌then◌else◌,
  arith, Option-cases, inl, inr,
}
use linux_c_code.Eloop.State.{Sock}
use linux_c_code.Eloop.Poll.{
  Pollfd, Polls, write, enter, reset_revents, add_reader, add_writer, add_exception,
}

-- POLLIN and POLLOUT of the entry for a descriptor.
unfoldable pub asked : Polls → ℕ → Option (Bool × Bool)
asked p fd = elim (p.map fd) [
  | none ↦ none
  | some j ↦ some ((p.pollfds j).pollin, (p.pollfds j).pollout)
]

-- Every pointer goes to an entry before `nxt` for its own descriptor.
pub record IsLinked (p : Polls) : Type 0 where
  pub below : (fd j : ℕ) → p.map fd ≡ some j → j < p.nxt
  pub own : (fd j : ℕ) → p.map fd ≡ some j → (p.pollfds j).fd ≡ fd

-- A step that changes what is asked for one descriptor, and takes one entry at most.
pub record Changes (p : Polls) (after : Option Polls) (fd : ℕ) (new : Option (Bool × Bool))
    : Type 0 where
  pub next : Polls
  pub runs : after ≡ some next
  pub linked : IsLinked next
  pub few : next.nxt ≤ p.nxt + 1
  pub same : (x : ℕ) → asked next x ≡ (if x == fd then new else asked p x)

enter-IsLinked :
    (fd : ℕ) (pfd : Pollfd) (p : Polls) → pfd.fd ≡ fd → IsLinked p → IsLinked (enter fd pfd p)
unfolding enter write
enter-IsLinked fd pfd p e h = record {
  below = λ x j m. grind (arith, m, h.below x j);
  own = λ x j m. grind (arith, m, e, h.below x j, h.own x j);
}

asked-enter :
    (fd : ℕ) (pfd : Pollfd) (p : Polls) (x : ℕ)
    → IsLinked p
    → asked (enter fd pfd p) x ≡ (if x == fd then some (pfd.pollin, pfd.pollout) else asked p x)
unfolding asked enter write
asked-enter fd pfd p x h = elim (Option-cases (p.map x)) [
  | inl e ↦ grind (arith, e)
  | inr (j, e) ↦ grind (arith, e, h.below x j e)
]

reset_revents-IsLinked : (i : ℕ) (p : Polls) → IsLinked p → IsLinked (reset_revents i p)
unfolding reset_revents write
reset_revents-IsLinked i p h = record {
  below = h.below;
  own = λ x j m. grind (arith, m, h.own x j m);
}

asked-reset_revents : (i : ℕ) (p : Polls) (x : ℕ) → asked (reset_revents i p) x ≡ asked p x
unfolding asked reset_revents write
asked-reset_revents i p x = elim (Option-cases (p.map x)) [
  | inl e ↦ grind (arith, e)
  | inr (j, e) ↦ grind (arith, e)
]

-- POLLOUT is added to the entry that a pointer goes to.
abbrev with_out : ℕ → Polls → Polls
with_out j p = record p { pollfds = write p.pollfds j (record (p.pollfds j) { pollout = true }) }

with_out-IsLinked : (j : ℕ) (p : Polls) → IsLinked p → IsLinked (with_out j p)
unfolding write
with_out-IsLinked j p h = record { below = h.below; own = λ x k m. grind (arith, m, h.own x k m) }

asked-with_out :
    (fd j : ℕ) (p : Polls) (x : ℕ)
    → IsLinked p
    → p.map fd ≡ some j
    → asked (with_out j p) x ≡ (if x == fd then some ((p.pollfds j).pollin, true) else asked p x)
unfolding asked write
asked-with_out fd j p x h m = elim (Option-cases (p.map x)) [
  | inl e ↦ grind (arith, e, m)
  | inr (k, e) ↦ grind (arith, e, m, h.own x k e, h.own fd j m)
]

-- What an entry of the writers, and one of the exceptions, changes.
unfoldable pub with_pollout : Option (Bool × Bool) → Option (Bool × Bool)
with_pollout none = some (false, true)
with_pollout (some v) = some (v.0, true)

unfoldable pub with_exception : Option (Bool × Bool) → Option (Bool × Bool)
with_exception none = some (true, false)
with_exception (some v) = some v

asked_unmapped : (p : Polls) (fd : ℕ) → p.map fd ≡ none → asked p fd ≡ none
unfolding asked
asked_unmapped p fd e = grind (arith, e)

asked_mapped :
    (p : Polls) (fd j : ℕ)
    → p.map fd ≡ some j
    → asked p fd ≡ some ((p.pollfds j).pollin, (p.pollfds j).pollout)
unfolding asked
asked_mapped p fd j e = grind (arith, e)

with_exception_mapped :
    (v : Option (Bool × Bool)) (w : Bool × Bool) → v ≡ some w → with_exception v ≡ v
unfolding with_exception
with_exception_mapped none w e = absurd (ground (arith, e))
with_exception_mapped (some v) w e = refl

enter-few : (fd : ℕ) (pfd : Pollfd) (p : Polls) → (enter fd pfd p).nxt ≤ p.nxt + 1
unfolding enter
enter-few fd pfd p = omega arith

reset_enter-few :
    (i fd : ℕ) (pfd : Pollfd) (p : Polls) → (reset_revents i (enter fd pfd p)).nxt ≤ p.nxt + 1
unfolding enter reset_revents
reset_enter-few i fd pfd p = omega arith

asked_self : (p : Polls) (fd x : ℕ) → asked p x ≡ (if x == fd then asked p fd else asked p x)
asked_self p fd x = grind arith

module _ (max_poll_fds max_pollfd_map : ℕ) where
  pub add_reader-Changes :
      (s : Sock) (p : Polls)
      → IsLinked p
      → s.sock < max_pollfd_map
      → p.nxt < max_poll_fds
      → Changes p (add_reader max_poll_fds max_pollfd_map s p) s.sock (some (true, false))
  unfolding add_reader
  add_reader-Changes s p h fd room = record {
    next = enter s.sock (record { fd = s.sock; pollin = true; pollout = false; revents = 0 }) p;
    runs = ground (arith, fd, room);
    linked = enter-IsLinked s.sock _ p refl h;
    few = enter-few s.sock _ p;
    same = λ x. asked-enter s.sock _ p x h;
  }

  -- A new entry, with the reset in another place.
  entered-Changes :
      (i fd : ℕ) (pfd : Pollfd) (p : Polls) (after : Option Polls) (new : Option (Bool × Bool))
      → IsLinked p
      → pfd.fd ≡ fd
      → some (pfd.pollin, pfd.pollout) ≡ new
      → after ≡ some (reset_revents i (enter fd pfd p))
      → Changes p after fd new
  entered-Changes i fd pfd p after new h e v runs = record {
    next = reset_revents i (enter fd pfd p);
    runs = runs;
    linked = reset_revents-IsLinked i (enter fd pfd p) (enter-IsLinked fd pfd p e h);
    few = reset_enter-few i fd pfd p;
    same = λ x. rw (sym v) (asked-reset_revents i (enter fd pfd p) x ∙ asked-enter fd pfd p x h);
  }

  pub add_writer-Changes :
      (i : ℕ) (s : Sock) (p : Polls)
      → IsLinked p
      → s.sock < max_pollfd_map
      → p.nxt < max_poll_fds
      → i < max_poll_fds
      → Changes p
          (add_writer max_poll_fds max_pollfd_map i s p)
          s.sock
          (with_pollout (asked p s.sock))
  unfolding with_pollout add_writer
  add_writer-Changes i s p h fd room index = elim (Option-cases (p.map s.sock)) [
    | inl e ↦
        entered-Changes i s.sock
          (record (p.pollfds p.nxt) { fd = s.sock; pollin = false; pollout = true }) p _ _ h refl
          (rw (asked_unmapped p s.sock e) refl) (grind (arith, e, fd, room, index))
    | inr (j, e) ↦ record {
      next = with_out j p;
      runs = grind (arith, e, fd);
      linked = with_out-IsLinked j p h;
      few = omega arith;
      same = λ x. rw (asked_mapped p s.sock j e) (asked-with_out s.sock j p x h e);
    }
  ]

  pub add_exception-Changes :
      (i : ℕ) (s : Sock) (p : Polls)
      → IsLinked p
      → s.sock < max_pollfd_map
      → p.nxt < max_poll_fds
      → i < max_poll_fds
      → Changes p
          (add_exception max_poll_fds max_pollfd_map i s p)
          s.sock
          (with_exception (asked p s.sock))
  unfolding with_exception add_exception
  add_exception-Changes i s p h fd room index = elim (Option-cases (p.map s.sock)) [
    | inl e ↦
        entered-Changes i s.sock
          (record (p.pollfds p.nxt) { fd = s.sock; pollin = true; pollout = false }) p _ _ h refl
          (rw (asked_unmapped p s.sock e) refl) (grind (arith, e, fd, room, index))
    | inr (j, e) ↦ record {
      next = p;
      runs = grind (arith, e, fd);
      linked = h;
      few = omega arith;
      same =
          λ x. rw (with_exception_mapped _ _ (asked_mapped p s.sock j e)) (asked_self p s.sock x);
    }
  ]
