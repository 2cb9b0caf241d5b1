-- ===== src/Eloop/Poll/Loops.antt =====
-- What `eloop_sock_table_set_fds` of eloop/src/eloop.c asks `poll` for, with CONFIG_ELOOP_POLL.
use linux_c_code.Base.{
  ℕ, ◌+◌, ◌<◌, ◌≤◌, ◌≡◌, refl, ◌∙◌, Bool, true, false, ◌&&◌, ◌||◌, Option, none, some, List, [],
  ◌∷◌, ltb, ◌==◌, if◌then◌else◌, length, arith, Option-cases, inl, inr,
}
use linux_c_code.Eloop.State.{Sock}
use linux_c_code.Eloop.Poll.{
  Pollfd, Polls, add_reader, add_writer, add_exception, add_readers, add_all, poll_fds,
}
use linux_c_code.Eloop.Poll.Asked.{
  asked, IsLinked, Changes, with_pollout, with_exception, add_reader-Changes, add_writer-Changes,
  add_exception-Changes,
}

-- A descriptor is in a list of entries.
unfoldable pub listed : ℕ → List Sock → Bool
listed fd [] = false
listed fd (s ∷ ss) = fd == s.sock || listed fd ss

-- All descriptors of a list are below a bound.
unfoldable pub within : ℕ → List Sock → Bool
within bound [] = true
within bound (s ∷ ss) = ltb s.sock bound && within bound ss

-- What a loop over a list makes of the array.
record Loops (p : Polls) (after : Option Polls) (f : Option (Bool × Bool) → Option (Bool × Bool))
    (ss : List Sock) : Type 0 where
  next : Polls
  runs : after ≡ some next
  linked : IsLinked next
  few : next.nxt ≤ p.nxt + length ss
  same : (x : ℕ) → asked next x ≡ (if listed x ss then f (asked p x) else asked p x)

-- A loop that changes an entry twice changes it once, and a step before a loop is part of it.
module _ (f : Option (Bool × Bool) → Option (Bool × Bool))
    (twice : (v : Option (Bool × Bool)) → f (f v) ≡ f v) where
  steps_agree :
      (p : Polls) (a b : Option (Bool × Bool)) (x fd : ℕ) (later : Bool)
      → b ≡ (if x == fd then f (asked p fd) else asked p x)
      → a ≡ (if later then f b else b)
      → a ≡ (if x == fd || later then f (asked p x) else asked p x)
  steps_agree p a b x fd true e1 e2 = grind (arith, e1, e2, twice (asked p fd))
  steps_agree p a b x fd false e1 e2 = grind (arith, e1, e2)

  Loops-cons :
      (p : Polls) (s : Sock) (ss : List Sock) (one all : Option Polls)
      → (first : Changes p one s.sock (f (asked p s.sock))) → Loops first.next all f ss
      → Loops p all f (s ∷ ss)
  unfolding listed
  Loops-cons p s ss one all first rest = record {
    next = rest.next;
    runs = rest.runs;
    linked = rest.linked;
    few = omega (arith, first.few, rest.few);
    same = λ x. steps_agree p _ _ x s.sock (listed x ss) (first.same x) (rest.same x);
  }

  Loops-nil : (p : Polls) → IsLinked p → Loops p (some p) f []
  unfolding listed
  Loops-nil p h = record { next = p; runs = refl; linked = h; few = omega arith; same = λ x. refl }

add_all-cons :
    (add : ℕ → Sock → Polls → Option Polls) (i : ℕ) (s : Sock) (ss : List Sock) (p q : Polls)
    → add i s p ≡ some q
    → add_all add i (s ∷ ss) p ≡ add_all add (i + 1) ss q
unfolding add_all
add_all-cons add i s ss p q e = grind (arith, e)

module _ (bound size : ℕ) (add : ℕ → Sock → Polls → Option Polls)
    (f : Option (Bool × Bool) → Option (Bool × Bool))
    (twice : (v : Option (Bool × Bool)) → f (f v) ≡ f v)
    (step : (i : ℕ) (s : Sock) (p : Polls)
      → IsLinked p
      → s.sock < bound
      → p.nxt < size
      → i < size
      → Changes p (add i s p) s.sock (f (asked p s.sock))) where
  add_all-Loops :
      (ss : List Sock) (i : ℕ) (p : Polls)
      → IsLinked p
      → within bound ss ≡ true
      → p.nxt + length ss ≤ size
      → i + length ss ≤ size
      → Loops p (add_all add i ss p) f ss
  unfolding add_all within
  add_all-Loops [] i p h w l k = Loops-nil f twice p h
  add_all-Loops (s ∷ ss) i p h w l k =
      let first = step i s p h (ground (arith, w)) (omega (arith, l)) (omega (arith, k)) in
      let rest =
        add_all-Loops ss (i + 1) first.next first.linked (ground (arith, w))
          (omega (arith, l, first.few)) (omega (arith, k)) in
      rw (add_all-cons add i s ss p first.next first.runs)
        (Loops-cons f twice p s ss (add i s p) _ first rest)

add_readers-add_all :
    (size bound : ℕ) (ss : List Sock) (i : ℕ) (p : Polls)
    → add_readers size bound ss p ≡ add_all (λ n. add_reader size bound) i ss p
unfolding add_readers add_all
add_readers-add_all size bound [] i p = refl
add_readers-add_all size bound (s ∷ ss) i p = elim (Option-cases (add_reader size bound s p)) [
  | inl e ↦ grind (arith, e)
  | inr (q, e) ↦ grind (arith, e, add_readers-add_all size bound ss (i + 1) q)
]

-- The array and the pointers before the first loop.
abbrev cleared : (ℕ → Pollfd) → Polls
cleared memory = record { pollfds = memory; map = λ fd. none; nxt = 0 }

cleared-IsLinked : (memory : ℕ → Pollfd) → IsLinked (cleared memory)
cleared-IsLinked memory = record {
  below = λ fd j e. absurd (ground (arith, e));
  own = λ fd j e. absurd (ground (arith, e));
}

asked-cleared : (memory : ℕ → Pollfd) (x : ℕ) → asked (cleared memory) x ≡ none
unfolding asked
asked-cleared memory x = refl

with_pollout_twice : (v : Option (Bool × Bool)) → with_pollout (with_pollout v) ≡ with_pollout v
unfolding with_pollout
with_pollout_twice none = refl
with_pollout_twice (some v) = refl

with_exception_twice :
    (v : Option (Bool × Bool)) → with_exception (with_exception v) ≡ with_exception v
unfolding with_exception
with_exception_twice none = refl
with_exception_twice (some v) = refl

-- What `poll` should be asked: POLLIN for the readers and for descriptors that only wait for
-- exceptions, POLLOUT for the writers.
unfoldable pub wanted : (readers writers exceptions : List Sock) → ℕ → Option (Bool × Bool)
wanted readers writers exceptions fd =
    if listed fd readers
    then some (true, listed fd writers)
    else (if listed fd writers
        then some (false, true)
        else (if listed fd exceptions then some (true, false) else none))

combined :
    (r w e : Bool) (a b c : Option (Bool × Bool))
    → a ≡ (if r then some (true, false) else none)
    → b ≡ (if w then with_pollout a else a)
    → c ≡ (if e then with_exception b else b)
    → c ≡ (
        if r
        then some (true, w)
        else (if w then some (false, true) else (if e then some (true, false) else none)))
unfolding with_pollout with_exception
combined true true true a b c h k l = rw (l, k, h) refl
combined true true false a b c h k l = rw (l, k, h) refl
combined true false true a b c h k l = rw (l, k, h) refl
combined true false false a b c h k l = rw (l, k, h) refl
combined false true true a b c h k l = rw (l, k, h) refl
combined false true false a b c h k l = rw (l, k, h) refl
combined false false true a b c h k l = rw (l, k, h) refl
combined false false false a b c h k l = rw (l, k, h) refl

poll_fds-run :
    (size bound : ℕ) (memory : ℕ → Pollfd) (readers writers exceptions : List Sock) (p q : Polls)
    → add_readers size bound readers (cleared memory) ≡ some p
    → add_all (add_writer size bound) 0 writers p ≡ some q
    → poll_fds size bound memory readers writers exceptions
      ≡ add_all (add_exception size bound) 0 exceptions q
unfolding poll_fds
poll_fds-run size bound memory readers writers exceptions p q e k = grind (arith, e, k)

-- When the descriptors are below `max_pollfd_map` and the array has an entry for each of the three
-- tables' entries, whatever it held before: `eloop_sock_table_set_fds` of the build for `poll` stays
-- inside of both arrays and meets its assertions, uses at most one entry for each entry of the tables,
-- points from a descriptor only to an entry in use for that descriptor, and asks for POLLIN and POLLOUT
-- as the tables want: one entry for a descriptor with both, POLLIN for one that only waits for
-- exceptions, and nothing for the others.
pub poll_fds_lem :
    (size bound : ℕ) (memory : ℕ → Pollfd) (readers writers exceptions : List Sock)
    → within bound readers ≡ true
    → within bound writers ≡ true
    → within bound exceptions ≡ true
    → length readers + length writers + length exceptions ≤ size
    → (p : Polls) × (poll_fds size bound memory readers writers exceptions ≡ some p)
      × (p.nxt ≤ length readers + length writers + length exceptions)
      × IsLinked p
      × ((fd : ℕ) → asked p fd ≡ wanted readers writers exceptions fd)
unfolding wanted asked
poll_fds_lem size bound memory rs ws es hr hw he room =
    let r =
      add_all-Loops bound size (λ i. add_reader size bound) (λ v. some (true, false)) (λ v. refl)
        (λ i s p h fd n k. add_reader-Changes size bound s p h fd n) rs 0 (cleared memory)
        (cleared-IsLinked memory) hr (omega (arith, room)) (omega (arith, room)) in
    let w =
      add_all-Loops bound size (add_writer size bound) with_pollout with_pollout_twice
        (add_writer-Changes size bound) ws 0 r.next r.linked hw (omega (arith, room, r.few))
        (omega (arith, room)) in
    let e =
      add_all-Loops bound size (add_exception size bound) with_exception with_exception_twice
        (add_exception-Changes size bound) es 0 w.next w.linked he
        (omega (arith, room, r.few, w.few)) (omega (arith, room)) in
    (
      e.next,
      poll_fds-run size bound memory rs ws es r.next w.next
            (add_readers-add_all size bound rs 0 (cleared memory) ∙ r.runs) w.runs
          ∙ e.runs,
      omega (arith, r.few, w.few, e.few),
      e.linked,
      λ fd.
          combined (listed fd rs) (listed fd ws) (listed fd es) _ _ _ (r.same fd) (w.same fd)
            (e.same fd),
    )
