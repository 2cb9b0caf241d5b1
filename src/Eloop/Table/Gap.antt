-- ===== src/Eloop/Table/Gap.antt =====
-- The search and the `memmove` of `eloop_sock_table_remove_sock` in eloop/src/eloop.c, as slices of
-- the entries in use.
use linux_c_code.Base.{
  ℕ, zero, suc, ◌+◌, ◌-◌, ◌≤◌, ◌<◌, ◌≡◌, refl, ap, sym, some, List, [], ◌∷◌, ◌++◌, arith, length,
  take, drop, get_elem?, length-take, length-drop, length-append, Bool, true, false, if◌then◌else◌,
  ◌==◌, Bool-cases, ltb, inl, inr,
}
use mathlib.Core.Path.{subst}
use mathlib.Core.List.{append_assoc, append-nil}
use linux_c_code.Base.Slices.{take-append, take-take, drop-take, drop-cons}
use linux_c_code.Eloop.State.{Sock, SockTable, live}
use linux_c_code.Eloop.Table.{find_sock, close_gap, memmove}

-- The list without its first entry for `sock`.
unfoldable pub erase_sock : ℕ → List Sock → List Sock
erase_sock sock [] = []
erase_sock sock (s ∷ ss) = if s.sock == sock then ss else s ∷ erase_sock sock ss

-- Whether there is an entry for `sock`.
unfoldable pub has_sock : ℕ → List Sock → Bool
has_sock sock [] = false
has_sock sock (s ∷ ss) = if s.sock == sock then true else has_sock sock ss

-- The position of the first entry for `sock`, or the length.
unfoldable pub index_of : ℕ → List Sock → ℕ
index_of sock [] = 0
index_of sock (s ∷ ss) = if s.sock == sock then 0 else suc (index_of sock ss)

pub index_of-le : (sock : ℕ) (xs : List Sock) → index_of sock xs ≤ length xs
unfolding index_of
index_of-le sock [] = omega arith
index_of-le sock (x ∷ xs) = ground (arith, index_of-le sock xs)

pub erase_sock-slices :
    (sock : ℕ) (xs : List Sock)
    → erase_sock sock xs ≡ take (index_of sock xs) xs ++ drop (index_of sock xs + 1) xs
unfolding index_of erase_sock
erase_sock-slices sock [] = refl
erase_sock-slices sock (x ∷ xs) = elim (Bool-cases (x.sock == sock)) [
  | inl e ↦ rw e refl
  | inr e ↦ rw e (
      let s : suc (index_of sock xs) + 1 ≡ suc (index_of sock xs + 1) = omega arith in
      rw s (ap (λ ys. x ∷ ys) (erase_sock-slices sock xs)))
]

pub has_sock-index_of :
    (sock : ℕ) (xs : List Sock) → has_sock sock xs ≡ ltb (index_of sock xs) (length xs)
unfolding has_sock index_of
has_sock-index_of sock [] = refl
has_sock-index_of sock (x ∷ xs) = ground (arith, has_sock-index_of sock xs)

find_sock_step :
    (sock n i : ℕ) (cells rest : List Sock) (s : Sock)
    → get_elem? cells i ≡ some s
    → drop i cells ≡ s ∷ rest
    → find_sock sock n cells (i + 1) ≡ i + 1 + index_of sock (take n rest)
    → find_sock sock (suc n) cells i ≡ i + index_of sock (take (suc n) (drop i cells))
unfolding find_sock index_of
find_sock_step sock n i cells rest s e d ih = rw d (ground arith)

pub find_sock-index_of :
    (sock n : ℕ) (cells : List Sock) (i : ℕ)
    → i + n ≤ length cells
    → find_sock sock n cells i ≡ i + index_of sock (take n (drop i cells))
unfolding find_sock index_of
find_sock-index_of sock zero cells i h = omega arith
find_sock-index_of sock (suc n) cells i h =
    let (s, e, d) = drop-cons i cells (omega arith) in
    find_sock_step sock n i cells (drop (i + 1) cells) s e d
      (find_sock-index_of sock n cells (i + 1) (omega arith))

gap :
    (i m : ℕ) (cells : List Sock)
    → take i (take (i + 1 + m) cells) ++ drop (i + 1) (take (i + 1 + m) cells)
      ≡ take i cells ++ take m (drop (i + 1) cells)
gap i m cells = rw (take-take i (i + 1 + m) cells (omega arith), drop-take (i + 1) m cells) refl

memmove_gap :
    (i m : ℕ) (cells : List Sock)
    → i + 1 + m ≤ length cells
    → take (i + m) (memmove i (i + 1) m cells) ≡ take i cells ++ take m (drop (i + 1) cells)
memmove_gap i m cells fits = rw (← append_assoc) (
    take-append (i + m) (take i cells ++ take m (drop (i + 1) cells)) _ (
      omega (
        arith,
        length-append (take i cells) (take m (drop (i + 1) cells)),
        length-take i cells,
        length-take m (drop (i + 1) cells),
        length-drop (i + 1) cells,
      )))

-- Closing the gap at an entry in use removes that entry, whether it is the last or not.
pub close_gap-live :
    (i : ℕ) (t : SockTable)
    → t.count ≤ length t.cells
    → i < t.count
    → live (close_gap i t) ≡ take i (live t) ++ drop (i + 1) (live t)
close_gap-live i t fits h =
    let m = t.count - i - 1 in
    let e : t.count ≡ i + 1 + m = omega arith in
    let g : take i (take t.count t.cells) ++ drop (i + 1) (take t.count t.cells)
        ≡ take i t.cells ++ take m (drop (i + 1) t.cells) =
      subst
        (λ (c : ℕ).
          take i (take c t.cells) ++ drop (i + 1) (take c t.cells)
          ≡ take i t.cells ++ take m (drop (i + 1) t.cells))
        (sym e) (gap i m t.cells) in
    elim (Bool-cases (i == t.count - 1)) [
      | inl last ↦
          rw (last, g)
            (let k : t.count - 1 ≡ i = ground arith in
              let z : t.count - i - 1 ≡ 0 = omega arith in
              rw (k, z) (sym (append-nil (take i t.cells))))
      | inr inner ↦
          rw (inner, g)
            (let k : t.count - 1 ≡ i + m = omega arith in
              rw k (memmove_gap i m t.cells (omega arith)))
    ]

pub close_gap-length :
    (i : ℕ) (t : SockTable)
    → t.count ≤ length t.cells
    → i < t.count
    → (close_gap i t).count ≤ length (close_gap i t).cells
close_gap-length i t fits h = omega (
  arith,
  ap length (close_gap-live i t fits h),
  length-append (take i (live t)) (drop (i + 1) (live t)),
  length-take i (live t),
  length-drop (i + 1) (live t),
  length-take t.count t.cells,
  length-take (t.count - 1) (close_gap i t).cells,
)
