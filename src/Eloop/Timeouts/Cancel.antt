-- ===== src/Eloop/Timeouts/Cancel.antt =====
-- Cancelling and changing timeouts of eloop/src/eloop.c.
use linux_c_code.Base.{
  ℕ, ◌+◌, ◌-◌, ◌^◌, ◌⊎◌, ◌≡◌, refl, ap, ◌∙◌, Bool, true, false, none, some, List, [], ◌∷◌, ◌++◌,
  arith, Bool-cases, inl, inr, ◌==◌, ◌||◌, if◌then◌else◌,
}
use linux_c_code.Eloop.Time.{Reltime, before, sub}
use linux_c_code.Eloop.State.{Timeout, Eloop, all_ctx}
use linux_c_code.Eloop.Timeouts.{
  cancel_loop, cancel_timeout, cancel_one_loop, cancel_timeout_one, matches, matches_any, find,
  zero_time, is_timeout_registered,
}
use linux_c_code.Eloop.Timeouts.Sorted.{NoneBefore, IsSorted}

-- The timeouts without the property, in their order.
unfoldable pub reject : (Timeout → Bool) → List Timeout → List Timeout
reject p [] = []
reject p (t ∷ ts) = if p t then reject p ts else t ∷ reject p ts

unfoldable pub count : (Timeout → Bool) → List Timeout → ℕ
count p [] = 0
count p (t ∷ ts) = if p t then count p ts + 1 else count p ts

cancel_loop_lem :
    (p : Timeout → Bool) (ts : List Timeout) (n : ℕ)
    → cancel_loop p ts n ≡ (n + count p ts, reject p ts)
unfolding cancel_loop count reject
cancel_loop_lem p [] n = ground arith
cancel_loop_lem p (t ∷ ts) n = ground (arith, cancel_loop_lem p ts n, cancel_loop_lem p ts (n + 1))

NoneBefore-reject :
    (p : Timeout → Bool) (b : Reltime) (ts : List Timeout)
    → NoneBefore b ts
    → NoneBefore b (reject p ts)
unfolding reject
NoneBefore-reject p b [] h = tt
NoneBefore-reject p b (t ∷ ts) h = elim (Bool-cases (p t)) [
  | inl e ↦ rw e (NoneBefore-reject p b ts h.1)
  | inr e ↦ rw e (h.0, NoneBefore-reject p b ts h.1)
]

pub reject-IsSorted :
    (p : Timeout → Bool) (ts : List Timeout) → IsSorted ts → IsSorted (reject p ts)
unfolding reject
reject-IsSorted p [] s = tt
reject-IsSorted p (t ∷ ts) s = elim (Bool-cases (p t)) [
  | inl e ↦ rw e (reject-IsSorted p ts s.1)
  | inr e ↦ rw e (NoneBefore-reject p t.time ts s.0, reject-IsSorted p ts s.1)
]

find-reject :
    (p q : Timeout → Bool) (ts : List Timeout)
    → ((t : Timeout) → p t ≡ true → q t ≡ true)
    → find p (reject q ts) ≡ none
unfolding find reject
find-reject p q [] h = refl
find-reject p q (t ∷ ts) h = ground (arith, h t, find-reject p q ts h)

matches-any : (h d u : ℕ) (t : Timeout) → matches h d u t ≡ true → matches_any h d u t ≡ true
unfolding matches matches_any
matches-any h d u t e = ground arith

pub cancelled :
    (handler eloop_data user_data : ℕ) (e : Eloop)
    → let p = matches_any handler eloop_data user_data in
      cancel_timeout handler eloop_data user_data e
      ≡ (count p e.timeout, record e { timeout = reject p e.timeout })
unfolding cancel_timeout
cancelled handler eloop_data user_data e =
    let l =
      cancel_loop_lem (matches_any handler eloop_data user_data) e.timeout 0
      ∙ ap (λ (n : ℕ). (n, reject (matches_any handler eloop_data user_data) e.timeout))
          (omega arith) in
    λ i. ((l i).0, record e { timeout = (l i).1 })

-- What an argument of `eloop_cancel_timeout` accepts: ELOOP_ALL_CTX, all bits one, accepts everything.
abbrev pub Accepts : (argument context : ℕ) → Type 0
Accepts argument context = (argument ≡ 2 ^ 64 - 1) ⊎ (context ≡ argument)

abbrev pub Matching : (handler eloop_data user_data : ℕ) → Timeout → Type 0
Matching handler eloop_data user_data t =
    (t.handler ≡ handler) × Accepts eloop_data t.eloop_data × Accepts user_data t.user_data

-- From the first ring `n` timeouts have been removed, all that match and no other.
pub data Cancelled (handler eloop_data user_data : ℕ)
    : List Timeout → List Timeout → ℕ → Type 0 where
  at_end : Cancelled handler eloop_data user_data [] [] 0
  keeping :
      (t : Timeout) (ts us : List Timeout) (n : ℕ)
      → ¬ Matching handler eloop_data user_data t
      → Cancelled handler eloop_data user_data ts us n
      → Cancelled handler eloop_data user_data (t ∷ ts) (t ∷ us) n
  removing :
      (t : Timeout) (ts us : List Timeout) (n : ℕ)
      → Matching handler eloop_data user_data t
      → Cancelled handler eloop_data user_data ts us n
      → Cancelled handler eloop_data user_data (t ∷ ts) us (n + 1)

accepted :
    (argument context : ℕ)
    → (context == argument || argument == all_ctx) ≡ true
    → Accepts argument context
accepted argument context e = elim (Bool-cases (context == argument)) [
  | inl same ↦ inr (ground (arith, same))
  | inr other ↦ inl (ground (arith, e, other))
]

matches_any-Matching : (h d u : ℕ) (t : Timeout) → matches_any h d u t ≡ true → Matching h d u t
unfolding matches_any
matches_any-Matching h d u t e = (
  ground (arith, e),
  accepted d t.eloop_data (ground (arith, e)),
  accepted u t.user_data (ground (arith, e)),
)

Matching-matches_any : (h d u : ℕ) (t : Timeout) → Matching h d u t → matches_any h d u t ≡ true
unfolding matches_any
Matching-matches_any h d u t m = ground (arith, m)

reject-Cancelled :
    (h d u : ℕ) (ts : List Timeout)
    → Cancelled h d u ts (reject (matches_any h d u) ts) (count (matches_any h d u) ts)
unfolding reject count
reject-Cancelled h d u [] = at_end
reject-Cancelled h d u (t ∷ ts) = elim (Bool-cases (matches_any h d u t)) [
  | inl e ↦ rw e (removing t ts _ _ (matches_any-Matching h d u t e) (reject-Cancelled h d u ts))
  | inr e ↦ rw e (
      keeping t ts _ _ (λ m. let f = Matching-matches_any h d u t m in ground (arith, e, f))
        (reject-Cancelled h d u ts))
]

-- `eloop_cancel_timeout` removes exactly the timeouts with the handler whose two contexts are the
-- arguments, where an argument ELOOP_ALL_CTX accepts every context; it keeps the others in their order
-- and returns how many are gone. It changes nothing else, and a sorted ring stays sorted.
pub cancel_timeout_lem :
    (handler eloop_data user_data : ℕ) (e : Eloop)
    → IsSorted e.timeout
    → let (removed, e') = cancel_timeout handler eloop_data user_data e in
      Cancelled handler eloop_data user_data e.timeout e'.timeout removed
      × (e' ≡ record e { timeout = e'.timeout })
      × IsSorted e'.timeout
cancel_timeout_lem handler eloop_data user_data e s =
    rw (cancelled handler eloop_data user_data e)
      (reject-Cancelled handler eloop_data user_data e.timeout, refl, reject-IsSorted _ e.timeout s)

-- What `eloop_cancel_timeout_one` does to the ring `ts`, by whether there is a match.
pub data CancelledOne (p : Timeout → Bool) (now : Reltime) (ts : List Timeout)
    (out : ℕ × Reltime × List Timeout) : Type 0 where
  not_found : find p ts ≡ none → out ≡ (0, zero_time, ts) → CancelledOne p now ts out
  found :
      (t : Timeout) (front back : List Timeout)
      → find p ts ≡ some t
      → find p front ≡ none
      → ts ≡ front ++ (t ∷ back)
      → out ≡ (1, (if before now t.time then sub t.time now else zero_time), front ++ back)
      → CancelledOne p now ts out

CancelledOne-cons :
    (p : Timeout → Bool) (now : Reltime) (x : Timeout) (ts : List Timeout)
    (out : ℕ × Reltime × List Timeout)
    → p x ≡ false
    → CancelledOne p now ts out
    → CancelledOne p now (x ∷ ts) (out.0, out.1, x ∷ out.2)
unfolding find
CancelledOne-cons p now x ts out h (not_found e o) = not_found (rw h e) (rw o refl)
CancelledOne-cons p now x ts out h (found t front back e c s o) =
    found t (x ∷ front) back (rw h e) (rw h c) (ap (λ l. x ∷ l) s) (rw o refl)

cancel_one_loop_lem :
    (p : Timeout → Bool) (now : Reltime) (ts : List Timeout)
    → CancelledOne p now ts (cancel_one_loop p now ts)
unfolding cancel_one_loop find
cancel_one_loop_lem p now [] = not_found refl refl
cancel_one_loop_lem p now (t ∷ ts) = elim (Bool-cases (p t)) [
  | inl h ↦ found t [] ts (rw h refl) refl refl (rw h refl)
  | inr h ↦
      rw h
        (CancelledOne-cons p now t ts (cancel_one_loop p now ts) h (cancel_one_loop_lem p now ts))
]

-- `eloop_cancel_timeout_one` removes the first timeout that matches exactly, and no other, returns 1
-- and the time that was left, or 0 for a timeout that is due; without a match it returns 0 and
-- changes nothing. The rest of the loop's state stays.
pub cancel_timeout_one_lem :
    (now : Reltime) (handler eloop_data user_data : ℕ) (e : Eloop)
    → let (removed, remaining, e') = cancel_timeout_one now handler eloop_data user_data e in
      CancelledOne
        (matches handler eloop_data user_data)
        now
        e.timeout
        (removed, remaining, e'.timeout)
      × (e' ≡ record e { timeout = e'.timeout })
unfolding cancel_timeout_one
cancel_timeout_one_lem now handler eloop_data user_data e =
    (cancel_one_loop_lem (matches handler eloop_data user_data) now e.timeout, refl)

pub registered-none :
    (h d u : ℕ) (e : Eloop)
    → find (matches h d u) e.timeout ≡ none
    → is_timeout_registered h d u e ≡ false
unfolding is_timeout_registered
registered-none h d u e n = ground arith

-- `eloop_is_timeout_registered` answers 0 after `eloop_cancel_timeout` with the same arguments.
pub is_timeout_registered-cancel_timeout :
    (handler eloop_data user_data : ℕ) (e : Eloop)
    → is_timeout_registered handler eloop_data user_data
        (cancel_timeout handler eloop_data user_data e).1
      ≡ false
unfolding is_timeout_registered
is_timeout_registered-cancel_timeout h d u e = rw (cancelled h d u e) (
    registered-none h d u (record e { timeout = reject (matches_any h d u) e.timeout })
      (find-reject (matches h d u) (matches_any h d u) e.timeout (matches-any h d u)))
