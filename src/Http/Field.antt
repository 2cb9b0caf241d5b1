-- ===== src/Http/Field.antt =====
-- `_field_value_malloc` of httpclient/src/http.c: the growing buffer for the pieces of a header's
-- name or value.
pub mod Grow
pub mod Limits
use linux_c_code.Base.{
  ℕ, zero, suc, ◌+◌, ◌-◌, ◌%◌, ◌^◌, Bool, true, false, Option, none, some, List, [], ◌∷◌, ◌++◌, ltb,
  leb, if◌then◌else◌, length, take, drop,
}

-- The pointer `*str` with the bytes that it points to, and the two sizes, `unsigned short` each.
pub record Field : Type 0 where
  pub str : Option (List ℕ)
  pub cur_size : ℕ
  pub size : ℕ

pub data Stored : Type 0 where
  -- No memory: the function returns -1.
  failed : Field → Stored
  -- A write past the end of the allocated bytes.
  overflow : Field → Stored
  -- The function returns 0.
  stored : Field → Stored

abbrev pub default_header_size : ℕ
default_header_size = 128

-- A conversion to `unsigned short`.
abbrev pub u16 : ℕ → ℕ
u16 n = n % 2 ^ 16

-- `n` bytes as the function gives them.
unfoldable pub fill : ℕ → (ℕ → ℕ) → List ℕ
fill zero g = []
fill (suc n) g = g n ∷ fill n g

-- `realloc` to `n` bytes: what is added is whatever the memory holds.
unfoldable pub resize : (ℕ → ℕ) → ℕ → List ℕ → List ℕ
resize g n cells = take n cells ++ fill (n - length cells) g

-- `memcpy(cells + off, data, length)`; `none` is a write past the end.
unfoldable pub write_at : ℕ → List ℕ → List ℕ → Option (List ℕ)
write_at off bytes cells =
    if leb (off + length bytes) (length cells)
    then some (take off cells ++ (bytes ++ drop (off + length bytes) cells))
    else none

-- From the `memcpy` on: the bytes, the new size and the terminator.
unfoldable pub put : Field → List ℕ → List ℕ → Stored
put f cells bytes =
    let cur = u16 (f.cur_size + length bytes) in
    elim (write_at f.cur_size bytes cells) [
      | none ↦ overflow f
      | some cells1 ↦ elim (write_at cur (0 ∷ []) cells1) [
        | none ↦ overflow f
        | some cells2 ↦ stored (record { str = some cells2; cur_size = cur; size = f.size })
      ]
    ]

-- `_field_value_malloc`; `alloc` is `none` if `calloc` or `realloc` returns NULL, and otherwise what
-- is in fresh memory.
unfoldable pub field_value_malloc : Option (ℕ → ℕ) → Field → List ℕ → Stored
field_value_malloc alloc f bytes = elim f.str [
  | none ↦
      let size =
        u16
          (if ltb default_header_size (length bytes) then length bytes else default_header_size) in
      elim alloc [
        | none ↦ failed (record f { size = size })
        | some g ↦
            let cells = fill (size + 1) (λ k. 0) in
            put (record { str = some cells; cur_size = 0; size = size }) cells bytes
      ]
  | some cells ↦
      if ltb f.size (f.cur_size + length bytes)
      then (let size = u16 (f.cur_size + length bytes) in
          elim alloc [
            | none ↦ failed (record f { str = none; size = size })
            | some g ↦
                let moved = resize g (size + 1) cells in
                put (record f { str = some moved; size = size }) moved bytes
          ])
      else put f cells bytes
]
