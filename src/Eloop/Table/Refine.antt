-- ===== src/Eloop/Table/Refine.antt =====
-- The socket tables of eloop/src/eloop.c as lists of the entries in use.
use linux_c_code.Base.{
  ℕ, ◌+◌, ◌-◌, ◌≤◌, ◌<◌, ◌≡◌, ◌≢◌, refl, ap, sym, ◌∙◌, List, [], ◌∷◌, ◌++◌, arith, length,
  length-take, length-append, true, false, ◌==◌, Bool-cases, inl, inr, ◌⊎◌, max,
}
use linux_c_code.Base.Slices.{take-of_length_le}
use linux_c_code.Base.Int.{pos, negsuc}
use linux_c_code.Eloop.State.{
  Sock, SockTable, EventType, read, write, exception, Eloop, get_table, set_table, live,
}
use linux_c_code.Eloop.Table.{add_sock, remove_sock, find_sock, close_gap, is_nil}
use linux_c_code.Eloop.Table.Gap.{
  erase_sock, has_sock, has_sock-index_of, index_of, erase_sock-slices, find_sock-index_of,
  close_gap-live, close_gap-length, index_of-le,
}

pub get_table-set_table :
    (type : EventType) (t : SockTable) (e : Eloop) → get_table type (set_table type t e) ≡ t
unfolding get_table set_table
get_table-set_table read t e = refl
get_table-set_table write t e = refl
get_table-set_table exception t e = refl

pub get_table-set_table_ne :
    (type other : EventType) (t : SockTable) (e : Eloop)
    → other ≢ type
    → get_table other (set_table type t e) ≡ get_table other e
unfolding get_table set_table
get_table-set_table_ne read read t e h = absurd (h refl)
get_table-set_table_ne write write t e h = absurd (h refl)
get_table-set_table_ne exception exception t e h = absurd (h refl)
get_table-set_table_ne _ _ t e h = refl

count-set_table :
    (type : EventType) (t : SockTable) (e : Eloop) → (set_table type t e).count ≡ e.count
unfolding set_table
count-set_table read t e = refl
count-set_table write t e = refl
count-set_table exception t e = refl

-- A table whose entries in use lie in the allocated array.
pub record Fits (t : SockTable) : Type 0 where
  pub within : t.count ≤ length t.cells

pub length-live : {t : SockTable} → Fits t → length (live t) ≡ t.count
length-live {t} f = omega (arith, length-take t.count t.cells)

-- What one operation on the table `type` does: the entries in use become `after`, the flag
-- `changed` is set, and the other tables stay.
pub record Updates (type : EventType) (after : List Sock) (e e' : Eloop) : Type 0 where
  pub entries : live (get_table type e') ≡ after
  pub fits : Fits (get_table type e')
  pub flag : (get_table type e').changed ≡ true
  pub others : (other : EventType) → other ≢ type → get_table other e' ≡ get_table other e

-- The counters are not part of a table.
pub same_tables :
    (m c : ℕ) (e : Eloop) (type : EventType)
    → get_table type (record e { max_sock = m; count = c }) ≡ get_table type e
unfolding get_table
same_tables m c e read = refl
same_tables m c e write = refl
same_tables m c e exception = refl

set_table-Updates :
    (type : EventType) (t : SockTable) (m c : ℕ) (e : Eloop) {after : List Sock}
    → live t ≡ after
    → Fits t
    → t.changed ≡ true
    → Updates type after e (set_table type t (record e { max_sock = m; count = c }))
set_table-Updates type t m c e p f flag =
    let e0 = record e { max_sock = m; count = c } in
    let g = get_table-set_table type t e0 in
    record {
      entries = ap live g ∙ p;
      fits = rw g f;
      flag = rw g flag;
      others = λ other ne. get_table-set_table_ne type other t e0 ne ∙ same_tables m c e other;
    }

max_sock-set_table :
    (type : EventType) (t : SockTable) (e : Eloop) → (set_table type t e).max_sock ≡ e.max_sock
unfolding set_table
max_sock-set_table read t e = refl
max_sock-set_table write t e = refl
max_sock-set_table exception t e = refl

-- `eloop_sock_table_add_sock` with memory returns 0, puts the entry behind those in use, keeps the
-- other tables, counts one entry more and keeps `max_sock` above it; without memory it returns -1
-- and changes nothing.
pub add_sock_lem :
    (type : EventType) (s : Sock) (e : Eloop)
    → Fits (get_table type e)
    → let (code, e') = add_sock true type s e in
      (code ≡ pos 0)
      × Updates type (live (get_table type e) ++ (s ∷ [])) e e'
      × (e'.count ≡ e.count + 1)
      × (e'.max_sock ≡ max e.max_sock s.sock)
      × (add_sock false type s e ≡ (negsuc 0, e))
unfolding add_sock
add_sock_lem type s e f =
    let t = get_table type e in
    let fits : Fits (record t { cells = live t ++ (s ∷ []); count = t.count + 1; changed = true }) =
      record { within = omega (arith, length-append (live t) (s ∷ []), length-live f) } in
    (
      refl,
      set_table-Updates type _ _ _ e
          (take-of_length_le (t.count + 1) (live t ++ (s ∷ []))
            (omega (arith, length-append (live t) (s ∷ []), length-live f)))
          fits refl,
      count-set_table type _ _,
      rw (max_sock-set_table type) (ground arith),
      refl,
    )

is_nil-of_pos {ℓ} : {A : Type ℓ} (xs : List A) → 0 < length xs → is_nil xs ≡ false
is_nil-of_pos [] h = absurd (omega arith)
is_nil-of_pos (x ∷ xs) h = refl

abbrev pub Absent : EventType → ℕ → Eloop → Type 0
Absent type sock e =
    (has_sock sock (live (get_table type e)) ≡ false) × (remove_sock type sock e ≡ e)

abbrev pub Present : EventType → ℕ → Eloop → Type 0
Present type sock e =
    (has_sock sock (live (get_table type e)) ≡ true)
    × Updates type (erase_sock sock (live (get_table type e))) e (remove_sock type sock e)
    × ((remove_sock type sock e).count ≡ e.count - 1)

module _ (type : EventType) (sock : ℕ) (e : Eloop) (f : Fits (get_table type e)) where
  found :
      find_sock sock (get_table type e).count (get_table type e).cells 0
      ≡ index_of sock (live (get_table type e))
  found =
      find_sock-index_of sock (get_table type e).count (get_table type e).cells 0 (omega (arith, f))
      ∙ omega arith

  remove-Absent : has_sock sock (live (get_table type e)) ≡ false → Absent type sock e
  unfolding remove_sock
  remove-Absent h = (
    h,
    ground (
      arith,
      found,
      index_of-le sock (live (get_table type e)),
      has_sock-index_of sock (live (get_table type e)),
      length-live f,
    ),
  )

  removed :
      has_sock sock (live (get_table type e)) ≡ true
      → (index_of sock (live (get_table type e)) < (get_table type e).count)
        × (remove_sock type sock e
            ≡ set_table type
                (close_gap (index_of sock (live (get_table type e))) (get_table type e))
                (record e { count = e.count - 1 }))
  unfolding remove_sock
  removed h =
      let t = get_table type e in
      let below : index_of sock (live t) < t.count =
        ground (arith, has_sock-index_of sock (live t), length-live f) in
      let filled : is_nil t.cells ≡ false = is_nil-of_pos t.cells (omega (arith, f)) in
      let used : (t.count == 0) ≡ false = ground arith in
      let inside : (index_of sock (live t) == t.count) ≡ false = ground arith in
      (below, rw (filled, used, found, inside))

  remove-Present : has_sock sock (live (get_table type e)) ≡ true → Present type sock e
  remove-Present h =
      let t = get_table type e in
      let i = index_of sock (live t) in
      let (below, eq) = removed h in
      (
        h,
        rw eq (
            set_table-Updates type (close_gap i t) e.max_sock (e.count - 1) e
              (close_gap-live i t (omega (arith, f)) below ∙ sym (erase_sock-slices sock (live t)))
              (record { within = close_gap-length i t (omega (arith, f)) below }) refl),
        ap (λ (x : Eloop). x.count) eq ∙ count-set_table type (close_gap i t) _,
      )

-- `eloop_sock_table_remove_sock` removes the first entry in use for the descriptor, keeps the order
-- of the rest and the other tables, and counts one entry less; if there is none it changes nothing.
pub remove_sock_lem :
    (type : EventType) (sock : ℕ) (e : Eloop)
    → Fits (get_table type e)
    → Absent type sock e ⊎ Present type sock e
remove_sock_lem type sock e f = elim (Bool-cases (has_sock sock (live (get_table type e)))) [
  | inl h ↦ inr (remove-Present type sock e f h)
  | inr h ↦ inl (remove-Absent type sock e f h)
]
