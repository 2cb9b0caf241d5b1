-- ===== src/Eloop/Timeouts/Deplete.antt =====
-- `eloop_deplete_timeout` of eloop/src/eloop.c in microseconds.
use mathlib.Core.Path.{subst}
use linux_c_code.Base.{
  ℕ, ◌+◌, ◌*◌, ◌^◌, ◌≤◌, ◌<◌, ◌≡◌, sym, ap, ◌∙◌, true, none, some, List, [], ◌∷◌, ltb, arith, inl,
  inr, Bool-cases,
}
use linux_c_code.Base.Int.{ℤ, pos, negsuc, pos_part}
use linux_c_code.Eloop.Time.{Reltime, before, sub, to_int}
use linux_c_code.Eloop.Time.Order.{IsNormal, Elapsed, sub-Elapsed}
use linux_c_code.Eloop.State.{Timeout, Eloop}
use linux_c_code.Eloop.Timeouts.{matches, find, deplete_timeout, requested}
use linux_c_code.Eloop.Timeouts.Sorted.{IsSorted}
use linux_c_code.Eloop.Timeouts.Change.{absent, kept, moved, moved_to, deplete_timeout-Changes}
use linux_c_code.Eloop.Timeouts.Deadline.{deadline_lem}

abbrev pub at : ℕ → ℕ → Reltime
at s u = record { sec = pos s; usec = pos u }

-- A time that is not negative, in microseconds.
abbrev pub micros : Reltime → ℕ
micros t = pos_part t.sec * 1_000_000 + pos_part t.usec

-- The times of the ring are not negative and in normal form.
abbrev pub AllTimes : List Timeout → Type 0
AllTimes [] = Unit
AllTimes (t ∷ ts) = ((s u : ℕ) × (t.time ≡ at s u) × (u < 1_000_000)) × AllTimes ts

some_inj : {x y : Timeout} → some x ≡ some y → x ≡ y
some_inj {x} e = ap (λ o. elim o [ none ↦ x | some z ↦ z ]) e

found_time :
    (h d u : ℕ) (ts : List Timeout) (t : Timeout)
    → AllTimes ts
    → find (matches h d u) ts ≡ some t
    → (s v : ℕ) × (t.time ≡ at s v) × (v < 1_000_000)
unfolding find
found_time h d u [] t a e = absurd (ground (arith, e))
found_time h d u (x ∷ xs) t a e = elim (Bool-cases (matches h d u x)) [
  | inl m ↦
      let first : find (matches h d u) (x ∷ xs) ≡ some x = ground (arith, m) in
      subst (λ (y : Timeout). (s v : ℕ) × (y.time ≡ at s v) × (v < 1_000_000))
        (some_inj (sym first ∙ e)) a.0
  | inr m ↦
      let later : find (matches h d u) (x ∷ xs) ≡ find (matches h d u) xs = ground (arith, m) in
      found_time h d u xs t a.1 (sym later ∙ e)
]

requested-at :
    (secs usecs : ℕ) → secs < 2 ^ 31 → usecs < 1_000_000 → requested secs usecs ≡ at secs usecs
unfolding to_int
requested-at secs usecs c d = ground (arith, c, d)

-- A time in normal form is longer than a request exactly when it is in microseconds.
longer :
    (sec usec : ℤ) (s u s' u' secs usecs : ℕ)
    → usecs < 1_000_000
    → IsNormal (record { sec = sec; usec = usec })
    → Elapsed (at s' u') (at s u) (record { sec = sec; usec = usec })
    → before (at secs usecs) (record { sec = sec; usec = usec })
      ≡ ltb (micros (at s u) + (secs * 1_000_000 + usecs)) (micros (at s' u'))
unfolding before
longer (pos n) (pos m) s u s' u' secs usecs d i x = ground (arith, d, i, x)
longer (negsuc n) (pos m) s u s' u' secs usecs d i x = ground (arith, d, i, x)
longer (pos n) (negsuc m) s u s' u' secs usecs d i x = ground (arith, d, i, x)
longer (negsuc n) (negsuc m) s u s' u' secs usecs d i x = ground (arith, d, i, x)

-- The test of the code, for a request of less than 2 ^ 31 seconds.
left_longer :
    (s u s' u' secs usecs : ℕ)
    → u < 1_000_000
    → u' < 1_000_000
    → secs < 2 ^ 31
    → usecs < 1_000_000
    → before (requested secs usecs) (sub (at s' u') (at s u))
      ≡ ltb (micros (at s u) + (secs * 1_000_000 + usecs)) (micros (at s' u'))
left_longer s u s' u' secs usecs a b c d =
    let normal : (n k : ℕ) → k < 1_000_000 → IsNormal (at n k) =
      λ n k h. record { nonneg = omega arith; small = h } in
    let (exact, normal, _) = sub-Elapsed (at s' u') (at s u) (normal s' u' b) (normal s u a) in
    ap (λ x. before x (sub (at s' u') (at s u))) (requested-at secs usecs c d)
    ∙ longer (sub (at s' u') (at s u)).sec (sub (at s' u') (at s u)).usec s u s' u' secs usecs d
        normal exact

module _ (secs usecs handler eloop_data user_data : ℕ) where
  -- What happens, by what is registered and by how much time is left.
  pub data Depleted (now again : Reltime) (e : Eloop) (out : ℤ × Eloop) : Type 0 where
    nothing :
        find (matches handler eloop_data user_data) e.timeout ≡ none
        → out ≡ (negsuc 0, e)
        → Depleted now again e out
    soon :
        (t : Timeout)
        → find (matches handler eloop_data user_data) e.timeout ≡ some t
        → micros t.time ≤ micros now + (secs * 1_000_000 + usecs)
        → out ≡ (pos 0, e)
        → Depleted now again e out
    later :
        (t : Timeout) (time : Reltime)
        → find (matches handler eloop_data user_data) e.timeout ≡ some t
        → micros now + (secs * 1_000_000 + usecs) < micros t.time
        → IsNormal time
        → micros time ≡ micros again + (secs * 1_000_000 + usecs)
        → out ≡ (
          pos 1,
          record e { timeout = moved_to secs usecs handler eloop_data user_data time e.timeout },
        )
        → IsSorted (moved_to secs usecs handler eloop_data user_data time e.timeout)
        → Depleted now again e out

  -- With memory, a clock of less than 2 ^ 61 seconds and a request of less than 2 ^ 31 seconds in normal
  -- form, `eloop_deplete_timeout` returns -1 if no timeout matches exactly, 0 if the first that does is
  -- due at most the requested time after the first clock reading, and otherwise 1 after it has put one
  -- timeout, due the requested time after the second reading, in the place of all that match; a sorted
  -- ring stays sorted. The registered times are not negative and in normal form.
  pub deplete_timeout_lem :
      (s u s2 u2 : ℕ) (e : Eloop)
      → IsSorted e.timeout
      → AllTimes e.timeout
      → u < 1_000_000
      → s2 < 2 ^ 61
      → u2 < 1_000_000
      → secs < 2 ^ 31
      → usecs < 1_000_000
      → Depleted (at s u) (at s2 u2) e (
          deplete_timeout true (at s u) (some (at s2 u2)) secs usecs handler eloop_data user_data e)
  deplete_timeout_lem s u s2 u2 e sorted times hu hs2 hu2 hsecs husecs =
      let (time, due, normal, exact) =
        deadline_lem s2 u2 secs usecs hs2 hu2 hsecs (omega (arith, husecs)) in
      elim (deplete_timeout-Changes secs usecs handler eloop_data user_data (at s u) (at s2 u2) time
        e sorted due) [
          | absent f o ↦ nothing f o
          | kept t f near o ↦
              let (s', u', is, small) =
                found_time handler eloop_data user_data e.timeout t times f in
              let test = left_longer s u s' u' secs usecs hu small hsecs husecs in
              let shown =
                ap (λ x. before (requested secs usecs) (sub x (at s u))) (sym is) ∙ near in
              let due = ap micros is in soon t f (ground (arith, sym test ∙ shown, due)) o
          | moved t f far o stays ↦
              let (s', u', is, small) =
                found_time handler eloop_data user_data e.timeout t times f in
              let test = left_longer s u s' u' secs usecs hu small hsecs husecs in
              let shown = ap (λ x. before (requested secs usecs) (sub x (at s u))) (sym is) ∙ far in
              let due = ap micros is in
              later t time f (ground (arith, sym test ∙ shown, due)) normal (omega (arith, exact)) o
                stays
        ]
