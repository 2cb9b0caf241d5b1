-- ===== src/Eloop/Table.antt =====
-- Socket tables of eloop/src/eloop.c: registration, removal and the descriptor sets for `select`.
pub mod Gap
pub mod Refine
pub mod Fds
use linux_c_code.Base.{
  ℕ, zero, suc, ◌+◌, ◌-◌, Bool, true, false, Option, none, some, List, [], ◌∷◌, ◌++◌, ltb, ◌==◌,
  ◌||◌, if◌then◌else◌, get_elem?, take, drop, max, not,
}
use linux_c_code.Base.Int.{ℤ, pos, negsuc}
use linux_c_code.Eloop.State.{Sock, SockTable, EventType, Eloop, get_table, set_table}

abbrev pub is_nil {ℓ} : {A : Type ℓ} → List A → Bool
is_nil [] = true
is_nil (x ∷ xs) = false

-- `os_memmove(&a[dst], &a[src], n * sizeof *a)`
abbrev pub memmove {ℓ} : {A : Type ℓ} → ℕ → ℕ → ℕ → List A → List A
memmove dst src n xs = take dst xs ++ (take n (drop src xs) ++ drop (dst + n) xs)

-- `eloop_sock_table_add_sock`; `alloc` tells whether `os_realloc_array` returned memory.
unfoldable pub add_sock : Bool → EventType → Sock → Eloop → ℤ × Eloop
unfolding get_table set_table
add_sock alloc type s e =
    let new_max_sock = if ltb e.max_sock s.sock then s.sock else e.max_sock in
    let t = get_table type e in
    if alloc
    then (
      pos 0,
      set_table type
          (record t {
            cells = take t.count t.cells ++ (s ∷ []);
            count = t.count + 1;
            changed = true;
          })
          (record e { max_sock = new_max_sock; count = e.count + 1 }),
    )
    else (negsuc 0, e)

-- `for (i = 0; i < table->count; i++) if (table->table[i].sock == sock) break;` with `n` rounds left.
unfoldable pub find_sock : ℕ → ℕ → List Sock → ℕ → ℕ
find_sock sock zero cells i = i
find_sock sock (suc n) cells i =
    let next = find_sock sock n cells (i + 1) in
    elim (get_elem? cells i) [ none ↦ next | some s ↦ if s.sock == sock then i else next ]

-- The table after the removal of entry `i`.
abbrev pub close_gap : ℕ → SockTable → SockTable
close_gap i t = record t {
  cells = (if i == t.count - 1 then t.cells else memmove i (i + 1) (t.count - i - 1) t.cells);
  count = t.count - 1;
  changed = true;
}

-- `eloop_sock_table_remove_sock`
unfoldable pub remove_sock : EventType → ℕ → Eloop → Eloop
unfolding get_table set_table find_sock
remove_sock type sock e =
    let t = get_table type e in
    let i = find_sock sock t.count t.cells 0 in
    if is_nil t.cells || t.count == 0
    then e
    else (if i == t.count
        then e
        else set_table type (close_gap i t) (record e { count = e.count - 1 }))

-- `eloop_register_sock`; `none` is a failed assertion.
unfoldable pub register_sock :
    Bool → ℤ → EventType → (handler eloop_data user_data : ℕ) → Eloop → Option (ℤ × Eloop)
unfolding add_sock
register_sock alloc (negsuc n) type handler eloop_data user_data e = none
register_sock alloc (pos n) type handler eloop_data user_data e = some (
    add_sock alloc type
      (record { sock = n; eloop_data = eloop_data; user_data = user_data; handler = handler }) e)

-- `eloop_unregister_sock`; no entry has a negative descriptor.
unfoldable pub unregister_sock : ℤ → EventType → Eloop → Eloop
unfolding remove_sock
unregister_sock (negsuc n) type e = e
unregister_sock (pos n) type e = remove_sock type n e

-- `eloop_register_read_sock`
unfoldable pub register_read_sock :
    Bool → ℤ → (handler eloop_data user_data : ℕ) → Eloop → Option (ℤ × Eloop)
unfolding register_sock
register_read_sock alloc sock = register_sock alloc sock EventType.read

-- `eloop_unregister_read_sock`
unfoldable pub unregister_read_sock : ℤ → Eloop → Eloop
unfolding unregister_sock
unregister_read_sock sock = unregister_sock sock EventType.read

-- `fd_set`: which descriptors are in the set.
abbrev pub FdSet : Type 0
FdSet = ℕ → Bool

abbrev pub fd_setsize : ℕ
fd_setsize = 1024

-- `FD_SET`; `none` is a write past the end of the set.
unfoldable pub fd_set : ℕ → FdSet → Option FdSet
fd_set n fds = if ltb n fd_setsize then some (λ k. (k == n) || fds k) else none

unfoldable pub set_fds_loop : List Sock → FdSet → Option FdSet
unfolding fd_set
set_fds_loop [] fds = some fds
set_fds_loop (s ∷ ss) fds = elim (fd_set s.sock fds) [
  | none ↦ none
  | some fds' ↦ set_fds_loop ss fds'
]

-- `eloop_sock_table_set_fds`; the loop runs over the entries in use.
unfoldable pub set_fds : SockTable → Option FdSet
unfolding set_fds_loop
set_fds t =
    if is_nil t.cells then some (λ _. false) else set_fds_loop (take t.count t.cells) (λ _. false)

-- The set that `eloop_wait_for_read_sock` hands to `select`; an outer `none` is a return without a
-- wait, an inner one a write past the end of the set.
unfoldable pub wait_for_read_sock : ℤ → Option (Option FdSet)
unfolding fd_set
wait_for_read_sock (negsuc n) = none
wait_for_read_sock (pos n) = some (fd_set n (λ k. false))
