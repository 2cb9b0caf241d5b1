-- ===== src/Eloop/World/Tables.antt =====
-- How the socket tables of eloop/src/eloop.c change under the calls of an application.
use linux_c_code.Eloop.World.Preserve.{register_cases, deplete_cases, replenish_cases}
use linux_c_code.Base.{
  ℕ, ◌-◌, ◌≡◌, ◌≢◌, refl, ap, ◌∙◌, ◌⊎◌, inl, inr, Bool, true, false, Option, List, [], ◌∷◌,
  Bool-cases, ◌==◌, ◌||◌, arith,
}
use linux_c_code.Eloop.State.{
  Sock, SockTable, EventType, read, write, exception, Timeout, Eloop, get_table, set_table,
}
use linux_c_code.Eloop.Time.{Reltime}
use linux_c_code.Eloop.Table.{
  add_sock, remove_sock, register_sock, unregister_sock, is_nil, find_sock, close_gap,
}
use linux_c_code.Eloop.Table.Refine.{get_table-set_table, get_table-set_table_ne, same_tables}
use linux_c_code.Eloop.Timeouts.{register_timeout, cancel_timeout, cancel_timeout_one, reschedule}
use linux_c_code.Eloop.World.{
  Action, add_fd, drop_fd, add_timer, drop_timers, drop_timer, deplete, replenish, stop, exec,
  exec_all, terminate,
}
use linux_c_code.Eloop.World.Invariant.{EventType-discrete}

unfoldable pub same_type : EventType → EventType → Bool
same_type read read = true
same_type read write = false
same_type read exception = false
same_type write read = false
same_type write write = true
same_type write exception = false
same_type exception read = false
same_type exception write = false
same_type exception exception = true

-- From `e` to `e'` the table stays, or its flag is set.
abbrev pub Keeps : EventType → Eloop → Eloop → Type 0
Keeps type e e' = (get_table type e' ≡ get_table type e) ⊎ ((get_table type e').changed ≡ true)

pub Keeps-trans :
    (type : EventType) (e f g : Eloop) → Keeps type e f → Keeps type f g → Keeps type e g
Keeps-trans type e f g (inl p) (inl q) = inl (q ∙ p)
Keeps-trans type e f g (inr p) (inl q) = inr (ap (λ (t : SockTable). t.changed) q ∙ p)
Keeps-trans type e f g p (inr q) = inr q

set_table-Keeps :
    (type other : EventType) (t : SockTable) (m c : ℕ) (e : Eloop)
    → t.changed ≡ true
    → Keeps other e (set_table type t (record e { max_sock = m; count = c }))
set_table-Keeps type other t m c e h = elim (EventType-discrete other type) [
  | yes same ↦ inr (
      ap
        (λ (k : EventType).
          (get_table k (set_table type t (record e { max_sock = m; count = c }))).changed)
        same
      ∙ ap (λ (x : SockTable). x.changed) (get_table-set_table type t _)
      ∙ h)
  | no ne ↦ inl (get_table-set_table_ne type other t _ ne ∙ same_tables m c e other)
]

add_sock-Keeps :
    (alloc : Bool) (type other : EventType) (s : Sock) (e : Eloop)
    → Keeps other e (add_sock alloc type s e).1
unfolding add_sock
add_sock-Keeps false type other s e = inl refl
add_sock-Keeps true type other s e = set_table-Keeps type other _ _ _ e refl

remove_sock_cases :
    (type : EventType) (sock : ℕ) (e : Eloop)
    → (remove_sock type sock e ≡ e)
      ⊎ ((i : ℕ) × (remove_sock type sock e
            ≡ set_table type (close_gap i (get_table type e)) (record e { count = e.count - 1 })))
unfolding remove_sock
remove_sock_cases type sock e =
    let t = get_table type e in
    let i = find_sock sock t.count t.cells 0 in
    elim (Bool-cases (is_nil t.cells || t.count == 0)) [
      | inl empty ↦ inl (rw empty refl)
      | inr filled ↦ elim (Bool-cases (i == t.count)) [
        | inl missing ↦ inl (rw (filled, missing) refl)
        | inr found ↦ inr (i, rw (filled, found) refl)
      ]
    ]

remove_sock-Keeps :
    (type other : EventType) (sock : ℕ) (e : Eloop) → Keeps other e (remove_sock type sock e)
remove_sock-Keeps type other sock e = elim (remove_sock_cases type sock e) [
  | inl same ↦ inl (ap (get_table other) same)
  | inr (i, closed) ↦
      rw closed (
        set_table-Keeps type other (close_gap i (get_table type e)) e.max_sock (e.count - 1) e refl)
]

with_timeouts-table :
    (type : EventType) (ts : List Timeout) (e : Eloop)
    → get_table type (record e { timeout = ts }) ≡ get_table type e
unfolding get_table
with_timeouts-table read ts e = refl
with_timeouts-table write ts e = refl
with_timeouts-table exception ts e = refl

terminate-table : (type : EventType) (e : Eloop) → get_table type (terminate e) ≡ get_table type e
unfolding get_table terminate
terminate-table read e = refl
terminate-table write e = refl
terminate-table exception e = refl

register-Keeps :
    (type : EventType) (alloc : Bool) (now : Option Reltime) (secs usecs h d u : ℕ) (e : Eloop)
    → get_table type (register_timeout alloc now secs usecs h d u e).1 ≡ get_table type e
register-Keeps type alloc now secs usecs h d u e =
    elim (register_cases alloc now secs usecs h d u e) [
      | inl same ↦ ap (get_table type) same
      | inr (n, put) ↦ ap (get_table type) put ∙ with_timeouts-table type _ e
    ]

reschedule-table :
    (type : EventType) (alloc : Bool) (again : Option Reltime) (secs usecs h d u : ℕ) (e : Eloop)
    → get_table type (reschedule alloc again secs usecs h d u e) ≡ get_table type e
unfolding reschedule cancel_timeout
reschedule-table type alloc again secs usecs h d u e =
    register-Keeps type alloc again secs usecs h d u _ ∙ with_timeouts-table type _ e

moved_or_same :
    (type : EventType) (alloc : Bool) (again : Option Reltime) (secs usecs h d u : ℕ) (e e' : Eloop)
    → (e' ≡ e) ⊎ (e' ≡ reschedule alloc again secs usecs h d u e)
    → get_table type e' ≡ get_table type e
moved_or_same type alloc again secs usecs h d u e e' (inl same) = ap (get_table type) same
moved_or_same type alloc again secs usecs h d u e e' (inr moved) =
    ap (get_table type) moved ∙ reschedule-table type alloc again secs usecs h d u e

-- No call of an application changes a table without setting its flag.
pub exec-Keeps : (type : EventType) (a : Action) (e : Eloop) → Keeps type e (exec a e)
unfolding exec register_sock unregister_sock cancel_timeout cancel_timeout_one
exec-Keeps type (add_fd alloc sock t h d u) e = add_sock-Keeps alloc t type _ e
exec-Keeps type (drop_fd sock t) e = remove_sock-Keeps t type sock e
exec-Keeps type (add_timer alloc now secs usecs h d u) e =
    inl (register-Keeps type alloc now secs usecs h d u e)
exec-Keeps type (drop_timers h d u) e = inl (with_timeouts-table type _ e)
exec-Keeps type (drop_timer now h d u) e = inl (with_timeouts-table type _ e)
exec-Keeps type (deplete alloc now again secs usecs h d u) e = inl (
    moved_or_same type alloc again secs usecs h d u e _
      (deplete_cases alloc now again secs usecs h d u e))
exec-Keeps type (replenish alloc now again secs usecs h d u) e = inl (
    moved_or_same type alloc again secs usecs h d u e _
      (replenish_cases alloc now again secs usecs h d u e))
exec-Keeps type stop e = inl (terminate-table type e)

-- The calls that can change a table of this type.
unfoldable pub on_table : EventType → Action → Bool
on_table type (add_fd alloc sock t h d u) = same_type type t
on_table type (drop_fd sock t) = same_type type t
on_table type (add_timer alloc now secs usecs h d u) = false
on_table type (drop_timers h d u) = false
on_table type (drop_timer now h d u) = false
on_table type (deplete alloc now again secs usecs h d u) = false
on_table type (replenish alloc now again secs usecs h d u) = false
on_table type stop = false

unfoldable pub touches : EventType → List Action → Bool
touches type [] = false
touches type (a ∷ actions) = on_table type a || touches type actions

same_self : (type : EventType) → same_type type type ≡ true
unfolding same_type
same_self read = refl
same_self write = refl
same_self exception = refl

apart : (type other : EventType) → same_type other type ≡ false → other ≢ type
unfolding same_type
apart type other h e =
    let same : same_type other type ≡ true = ap (λ t. same_type t type) e ∙ same_self type in
    ground (arith, h, same)

add_sock-other :
    (alloc : Bool) (type other : EventType) (s : Sock) (e : Eloop)
    → same_type other type ≡ false
    → get_table other (add_sock alloc type s e).1 ≡ get_table other e
unfolding add_sock
add_sock-other false type other s e h = refl
add_sock-other true type other s e h =
    get_table-set_table_ne type other _ _ (apart type other h) ∙ same_tables _ _ e other

remove_sock-other :
    (type other : EventType) (sock : ℕ) (e : Eloop)
    → same_type other type ≡ false
    → get_table other (remove_sock type sock e) ≡ get_table other e
remove_sock-other type other sock e h = elim (remove_sock_cases type sock e) [
  | inl same ↦ ap (get_table other) same
  | inr (i, closed) ↦ rw closed (
      get_table-set_table_ne type other (close_gap i (get_table type e)) _ (apart type other h)
      ∙ same_tables e.max_sock (e.count - 1) e other)
]

-- A call that is no registration or removal of a descriptor of this type leaves the table alone.
exec-table :
    (type : EventType) (a : Action) (e : Eloop)
    → on_table type a ≡ false
    → get_table type (exec a e) ≡ get_table type e
unfolding on_table exec register_sock unregister_sock cancel_timeout cancel_timeout_one
exec-table type (add_fd alloc sock t h d u) e n = add_sock-other alloc t type _ e n
exec-table type (drop_fd sock t) e n = remove_sock-other t type sock e n
exec-table type (add_timer alloc now secs usecs h d u) e n =
    register-Keeps type alloc now secs usecs h d u e
exec-table type (drop_timers h d u) e n = with_timeouts-table type _ e
exec-table type (drop_timer now h d u) e n = with_timeouts-table type _ e
exec-table type (deplete alloc now again secs usecs h d u) e n =
    moved_or_same type alloc again secs usecs h d u e _
      (deplete_cases alloc now again secs usecs h d u e)
exec-table type (replenish alloc now again secs usecs h d u) e n =
    moved_or_same type alloc again secs usecs h d u e _
      (replenish_cases alloc now again secs usecs h d u e)
exec-table type stop e n = terminate-table type e

pub exec_all-table :
    (type : EventType) (actions : List Action) (e : Eloop)
    → touches type actions ≡ false
    → get_table type (exec_all actions e) ≡ get_table type e
unfolding exec_all touches
exec_all-table type [] e n = refl
exec_all-table type (a ∷ actions) e n =
    exec_all-table type actions (exec a e) (ground (arith, n))
    ∙ exec-table type a e (ground (arith, n))

pub exec_all-Keeps :
    (type : EventType) (actions : List Action) (e : Eloop) → Keeps type e (exec_all actions e)
unfolding exec_all
exec_all-Keeps type [] e = inl refl
exec_all-Keeps type (a ∷ actions) e =
    Keeps-trans type e (exec a e) (exec_all actions (exec a e)) (exec-Keeps type a e)
      (exec_all-Keeps type actions (exec a e))
