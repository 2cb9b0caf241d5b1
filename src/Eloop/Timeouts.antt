-- ===== src/Eloop/Timeouts.antt =====
-- Timeouts of eloop/src/eloop.c. The ring of timeouts is read along its `next` pointers as a list;
-- DlList models the pointers. What `os_zalloc` and `os_get_reltime` answer are arguments.
pub mod Deadline
pub mod Sorted
pub mod Cancel
pub mod Change
pub mod Deplete
use linux_c_code.Base.{
  ℕ, zero, suc, ◌+◌, ◌/◌, Bool, true, false, ◌&&◌, ◌||◌, Option, none, some, List, [], ◌∷◌, ◌==◌,
  if◌then◌else◌,
}
use linux_c_code.Base.Int.{ℤ, pos, negsuc, pos_part, neg_part, ◌-ℤ◌, ltb_ℤ}
use linux_c_code.Eloop.Time.{Reltime, before, sub, add_long, to_int}
use linux_c_code.Eloop.State.{Timeout, Eloop, all_ctx}

-- `while (usec >= 1000000) { sec++; usec -= 1000000; }`
unfoldable pub carry_loop : ℕ → Reltime → Reltime
carry_loop zero t = t
carry_loop (suc f) t = elim (ltb_ℤ t.usec (pos 1_000_000)) [
  | true ↦ t
  | false ↦ carry_loop f (record { sec = add_long t.sec (pos 1); usec = t.usec -ℤ pos 1_000_000 })
]

-- `Deadline.carry_loop_lem` shows that these rounds suffice.
unfoldable pub carry : Reltime → Reltime
unfolding carry_loop
carry t = carry_loop (pos_part t.usec / 1_000_000 + 1) t

-- `dl_list_for_each` with `dl_list_add(tmp->list.prev, ...)`, then `dl_list_add_tail`: the new
-- timeout goes before the first one that is later, or to the end.
unfoldable pub insert : Timeout → List Timeout → List Timeout
insert n [] = n ∷ []
insert n (t ∷ ts) = if before n.time t.time then n ∷ t ∷ ts else t ∷ insert n ts

-- The time at which a timeout of `secs` and `usecs` from `now` falls due; `none` for a sum of seconds
-- that wraps.
unfoldable pub deadline : (now : Reltime) → (secs usecs : ℕ) → Option Reltime
deadline now secs usecs =
    let sec = add_long now.sec (to_int secs) in
    if ltb_ℤ sec now.sec
    then none
    else some (carry (record { sec = sec; usec = add_long now.usec (to_int usecs) }))

-- `eloop_register_timeout`; `now` is `none` if `os_get_reltime` fails.
unfoldable pub register_timeout :
    (alloc : Bool)
    → (now : Option Reltime) → (secs usecs handler eloop_data user_data : ℕ) → Eloop
    → ℤ × Eloop
register_timeout false now secs usecs handler eloop_data user_data e = (negsuc 0, e)
register_timeout true none secs usecs handler eloop_data user_data e = (negsuc 0, e)
register_timeout true (some now) secs usecs handler eloop_data user_data e =
    elim (deadline now secs usecs) [
      | none ↦ (pos 0, e)
      | some time ↦ (
        pos 0,
        record e {
          timeout =
              insert
                (record {
                  time = time;
                  eloop_data = eloop_data;
                  user_data = user_data;
                  handler = handler;
                })
                e.timeout;
        },
      )
    ]

-- The condition of `eloop_cancel_timeout`, with its wildcard.
unfoldable pub matches_any : (handler eloop_data user_data : ℕ) → Timeout → Bool
matches_any handler eloop_data user_data t =
    t.handler == handler
    && ((t.eloop_data == eloop_data || eloop_data == all_ctx)
        && (t.user_data == user_data || user_data == all_ctx))

-- The condition of the functions without a wildcard.
unfoldable pub matches : (handler eloop_data user_data : ℕ) → Timeout → Bool
matches handler eloop_data user_data t =
    t.handler == handler && (t.eloop_data == eloop_data && t.user_data == user_data)

-- `dl_list_for_each_safe` with `eloop_remove_timeout` and `removed++`.
unfoldable pub cancel_loop : (Timeout → Bool) → List Timeout → ℕ → ℕ × List Timeout
cancel_loop p [] removed = (removed, [])
cancel_loop p (t ∷ ts) removed =
    let (n, rest) = cancel_loop p ts (if p t then removed + 1 else removed) in
    (n, if p t then rest else t ∷ rest)

-- `eloop_cancel_timeout`
unfoldable pub cancel_timeout : (handler eloop_data user_data : ℕ) → Eloop → ℕ × Eloop
cancel_timeout handler eloop_data user_data e =
    let (removed, ts) = cancel_loop (matches_any handler eloop_data user_data) e.timeout 0 in
    (removed, record e { timeout = ts })

abbrev pub zero_time : Reltime
zero_time = record { sec = pos 0; usec = pos 0 }

-- The loop of `eloop_cancel_timeout_one`: the first match leaves the ring, and the loop ends.
unfoldable pub cancel_one_loop :
    (Timeout → Bool) → Reltime → List Timeout → ℕ × Reltime × List Timeout
cancel_one_loop p now [] = (0, zero_time, [])
cancel_one_loop p now (t ∷ ts) =
    let rest = cancel_one_loop p now ts in
    if p t
    then (1, (if before now t.time then sub t.time now else zero_time), ts)
    else (rest.0, rest.1, t ∷ rest.2)

-- `eloop_cancel_timeout_one`; `now` is the content of the local after `os_get_reltime`.
unfoldable pub cancel_timeout_one :
    (now : Reltime) → (handler eloop_data user_data : ℕ) → Eloop → ℕ × Reltime × Eloop
cancel_timeout_one now handler eloop_data user_data e =
    let (removed, remaining, ts) =
      cancel_one_loop (matches handler eloop_data user_data) now e.timeout in
    (removed, remaining, record e { timeout = ts })

-- The first timeout with the property, as the `dl_list_for_each` loops with a `return` find it.
unfoldable pub find : (Timeout → Bool) → List Timeout → Option Timeout
find p [] = none
find p (t ∷ ts) = if p t then some t else find p ts

-- `eloop_is_timeout_registered`
unfoldable pub is_timeout_registered : (handler eloop_data user_data : ℕ) → Eloop → Bool
is_timeout_registered handler eloop_data user_data e =
    elim (find (matches handler eloop_data user_data) e.timeout) [ none ↦ false | some t ↦ true ]

-- What `eloop_deplete_timeout` and `eloop_replenish_timeout` do once they have found that the
-- timeout has to change: cancel, and register with the clock read again.
unfoldable pub reschedule :
    (alloc : Bool)
    → (again : Option Reltime) → (secs usecs handler eloop_data user_data : ℕ) → Eloop
    → Eloop
reschedule alloc again secs usecs handler eloop_data user_data e =
    (register_timeout alloc again secs usecs handler eloop_data user_data
      (cancel_timeout handler eloop_data user_data e).1).1

-- The requested time: both parts are cast to `int` on the way in, and to `unsigned int` on the way
-- out, which gives the arguments back.
abbrev pub requested : (secs usecs : ℕ) → Reltime
requested secs usecs = record { sec = to_int secs; usec = to_int usecs }

-- `eloop_deplete_timeout`
unfoldable pub deplete_timeout :
    (alloc : Bool)
    → (now : Reltime) → (again : Option Reltime) → (secs usecs handler eloop_data user_data : ℕ)
    → Eloop
    → ℤ × Eloop
deplete_timeout alloc now again secs usecs handler eloop_data user_data e =
    elim (find (matches handler eloop_data user_data) e.timeout) [
      | none ↦ (negsuc 0, e)
      | some t ↦
          if before (requested secs usecs) (sub t.time now)
          then (pos 1, reschedule alloc again secs usecs handler eloop_data user_data e)
          else (pos 0, e)
    ]

-- `eloop_replenish_timeout`
unfoldable pub replenish_timeout :
    (alloc : Bool)
    → (now : Reltime) → (again : Option Reltime) → (secs usecs handler eloop_data user_data : ℕ)
    → Eloop
    → ℤ × Eloop
replenish_timeout alloc now again secs usecs handler eloop_data user_data e =
    elim (find (matches handler eloop_data user_data) e.timeout) [
      | none ↦ (negsuc 0, e)
      | some t ↦
          if before (sub t.time now) (requested secs usecs)
          then (pos 1, reschedule alloc again secs usecs handler eloop_data user_data e)
          else (pos 0, e)
    ]
