-- ===== src/DlList.antt =====
-- The doubly linked lists of dllist/src/dllist.h and of eloop/src/list.h, which has the first half of
-- the same functions: operations on the `next` and `prev` pointers of an explicit store.
pub mod Ring
pub mod Insert
pub mod Remove
pub mod Walk
pub mod Splice
pub mod Replace
mod Tests
use linux_c_code.Base.{
  ℕ, zero, suc, ◌+◌, Bool, true, false, Option, none, some, ◌==◌, if◌then◌else◌,
}

-- The two pointers of every `struct dl_list`, by its address. NULL is 0.
pub record Heap : Type 0 where
  pub next : ℕ → ℕ
  pub prev : ℕ → ℕ

abbrev pub update : ℕ → ℕ → (ℕ → ℕ) → ℕ → ℕ
update p v f = λ q. if q == p then v else f q

-- `p->next = v`
unfoldable pub set_next : ℕ → ℕ → Heap → Heap
set_next p v h = record { next = update p v h.next; prev = h.prev }

-- `p->prev = v`
unfoldable pub set_prev : ℕ → ℕ → Heap → Heap
set_prev p v h = record { next = h.next; prev = update p v h.prev }

-- `dl_list_init`
unfoldable pub init : ℕ → Heap → Heap
init list h = set_prev list list (set_next list list h)

-- `dl_list_add`
unfoldable pub add : (list item : ℕ) → Heap → Heap
add list item h =
    let h1 = set_next item (h.next list) h in
    let h2 = set_prev item list h1 in
    let h3 = set_prev (h2.next list) item h2 in set_next list item h3

-- `dl_list_add_tail`
unfoldable pub add_tail : (list item : ℕ) → Heap → Heap
add_tail list item h = add (h.prev list) item h

-- `__list_del`
unfoldable pub unlink : (prev next : ℕ) → Heap → Heap
unlink prev next h = set_next prev next (set_prev next prev h)

-- `dl_list_del`
unfoldable pub del : ℕ → Heap → Heap
del item h = set_prev item 0 (set_next item 0 (unlink (h.prev item) (h.next item) h))

-- `dl_list_empty`
unfoldable pub empty : ℕ → Heap → Bool
empty list h = h.next list == list

-- The loop of `dl_list_len` from `item`, with at most `fuel` rounds; `none` if these do not reach the
-- head again.
unfoldable pub len_loop : (fuel list item count : ℕ) → Heap → Option ℕ
len_loop zero list item count h = if item == list then some count else none
len_loop (suc fuel) list item count h =
    let rest = len_loop fuel list (h.next item) (count + 1) h in
    if item == list then some count else rest

-- `dl_list_len`; the source has no bound on the rounds.
unfoldable pub len : (fuel list : ℕ) → Heap → Option ℕ
len fuel list h = len_loop fuel list (h.next list) 0 h

-- `dl_list_replace`
unfoldable pub replace : (old new : ℕ) → Heap → Heap
replace old new h =
    let h1 = set_next new (h.next old) h in
    let h2 = set_prev (h1.next new) new h1 in
    let h3 = set_prev new (h2.prev old) h2 in set_next (h3.prev new) new h3

-- `dl_list_replace_init`
unfoldable pub replace_init : (old new : ℕ) → Heap → Heap
replace_init old new h = init old (replace old new h)

-- `dl_list_move`
unfoldable pub move : (item head : ℕ) → Heap → Heap
move item head h = add head item (unlink (h.prev item) (h.next item) h)

-- `dl_list_move_tail`
unfoldable pub move_tail : (item head : ℕ) → Heap → Heap
move_tail item head h = add_tail head item (unlink (h.prev item) (h.next item) h)

-- `__dl_list_splice`
unfoldable pub join : (list head : ℕ) → Heap → Heap
join list head h =
    let first = h.next list in
    let last = h.prev list in
    let at = h.next head in
    set_prev at last (set_next last at (set_next head first (set_prev first head h)))

-- `dl_list_splice`
unfoldable pub splice : (list head : ℕ) → Heap → Heap
splice list head h = if empty list h then h else join list head h

-- `dl_list_splice_init`
unfoldable pub splice_init : (list head : ℕ) → Heap → Heap
splice_init list head h = if empty list h then h else init list (join list head h)
