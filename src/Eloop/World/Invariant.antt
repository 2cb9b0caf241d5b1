-- ===== src/Eloop/World/Invariant.antt =====
-- The invariant of `struct eloop_data` in eloop/src/eloop.c.
use mathlib.Core.Path.{subst}
use linux_c_code.Base.{ℕ, ◌+◌, ◌≤◌, ◌≡◌, refl, sym, Bool, List, [], ◌∷◌, ◌++◌, arith}
use linux_c_code.Eloop.State.{Sock, EventType, read, write, exception, Eloop, get_table, live, init}
use linux_c_code.Eloop.Table.{add_sock, remove_sock}
use linux_c_code.Eloop.Table.Gap.{erase_sock}
use linux_c_code.Eloop.Table.Refine.{Fits, Updates}
use linux_c_code.Eloop.Timeouts.Sorted.{IsSorted}

-- No descriptor of the list is above `m`.
abbrev pub AtMost : ℕ → List Sock → Type 0
AtMost m [] = Unit
AtMost m (s ∷ ss) = (s.sock ≤ m) × AtMost m ss

-- The tables lie in their arrays, `count` sums the entries in use, no descriptor in use is above
-- `max_sock`, and the timeouts are in order.
pub record IsValid (e : Eloop) : Type 0 where
  pub fits : (type : EventType) → Fits (get_table type e)
  pub total : e.count ≡ e.readers.count + e.writers.count + e.exceptions.count
  pub bound : (type : EventType) → AtMost e.max_sock (live (get_table type e))
  pub sorted : IsSorted e.timeout

pub init-IsValid : IsValid init
unfolding init get_table
init-IsValid = record { fits = init-Fits; total = refl; bound = init-AtMost; sorted = tt }
  where
    init-Fits : (type : EventType) → Fits (get_table type init)
    init-Fits read = omega arith
    init-Fits write = omega arith
    init-Fits exception = omega arith

    init-AtMost : (type : EventType) → AtMost 0 (live (get_table type init))
    init-AtMost read = tt
    init-AtMost write = tt
    init-AtMost exception = tt

pub AtMost-mono : (m n : ℕ) (ss : List Sock) → m ≤ n → AtMost m ss → AtMost n ss
AtMost-mono m n [] h a = tt
AtMost-mono m n (s ∷ ss) h a = (omega arith, AtMost-mono m n ss h a.1)

pub AtMost-append : (m : ℕ) (ss ts : List Sock) → AtMost m ss → AtMost m ts → AtMost m (ss ++ ts)
AtMost-append m [] ts a b = b
AtMost-append m (s ∷ ss) ts a b = (a.0, AtMost-append m ss ts a.1 b)

pub AtMost-erase_sock : (m sock : ℕ) (ss : List Sock) → AtMost m ss → AtMost m (erase_sock sock ss)
unfolding erase_sock
AtMost-erase_sock m sock [] a = tt
AtMost-erase_sock m sock (s ∷ ss) a = ground (arith, AtMost-erase_sock m sock ss a.1)

pub EventType-discrete : Discrete EventType
EventType-discrete = hlevel

-- What a table operation has to show, table by table.
pub Updates-Fits :
    {type : EventType} {after : List Sock} {e e' : Eloop}
    → Updates type after e e'
    → ((other : EventType) → Fits (get_table other e))
    → (other : EventType) → Fits (get_table other e')
Updates-Fits {type} {after} {e} {e'} u f other = elim (EventType-discrete other type) [
  | yes same ↦ subst (λ t. Fits (get_table t e')) (sym same) u.fits
  | no ne ↦ rw (u.others other ne) (f other)
]

pub Updates-AtMost :
    {type : EventType} {after : List Sock} {e e' : Eloop} (m : ℕ)
    → Updates type after e e'
    → AtMost m after
    → ((other : EventType) → AtMost m (live (get_table other e)))
    → (other : EventType) → AtMost m (live (get_table other e'))
Updates-AtMost {type} {after} {e} {e'} m u a f other = elim (EventType-discrete other type) [
  | yes same ↦ subst (λ t. AtMost m (live (get_table t e'))) (sym same) (rw u.entries a)
  | no ne ↦ rw (u.others other ne) (f other)
]

abbrev pub Total : Eloop → Type 0
Total e = e.count ≡ e.readers.count + e.writers.count + e.exceptions.count

pub add_sock-Total :
    (alloc : Bool) (type : EventType) (s : Sock) (e : Eloop)
    → Total e
    → Total (add_sock alloc type s e).1
unfolding add_sock
add_sock-Total alloc read s e h = ground arith
add_sock-Total alloc write s e h = ground arith
add_sock-Total alloc exception s e h = ground arith

pub remove_sock-Total :
    (type : EventType) (sock : ℕ) (e : Eloop) → Total e → Total (remove_sock type sock e)
unfolding remove_sock
remove_sock-Total read sock e h = ground arith
remove_sock-Total write sock e h = ground arith
remove_sock-Total exception sock e h = ground arith

pub add_sock-timeout :
    (alloc : Bool) (type : EventType) (s : Sock) (e : Eloop)
    → (add_sock alloc type s e).1.timeout ≡ e.timeout
unfolding add_sock
add_sock-timeout alloc read s e = ground arith
add_sock-timeout alloc write s e = ground arith
add_sock-timeout alloc exception s e = ground arith

pub remove_sock-keeps :
    (type : EventType) (sock : ℕ) (e : Eloop)
    → ((remove_sock type sock e).timeout ≡ e.timeout)
      × ((remove_sock type sock e).max_sock ≡ e.max_sock)
unfolding remove_sock
remove_sock-keeps read sock e = ground arith
remove_sock-keeps write sock e = ground arith
remove_sock-keeps exception sock e = ground arith
