-- ===== src/Http/Field/Limits.antt =====
-- The ends of the range of `_field_value_malloc` in httpclient/src/http.c: its first piece, and a text
-- that is too long for its sizes.
use linux_c_code.Base.{
  ℕ, ◌+◌, ◌-◌, ◌^◌, ◌<◌, ◌≤◌, ◌≡◌, refl, ◌∙◌, true, none, some, List, [], ◌++◌, ltb, length,
  length-append, length-take, take, arith, if◌then◌else◌,
}
use linux_c_code.Http.Field.{
  Field, overflow, stored, fill, resize, write_at, put, field_value_malloc, u16,
  default_header_size,
}
use linux_c_code.Http.Field.Grow.{Holds, Ready, length-fill, put-Holds, moved, grow-put}

pub length-resize : (g : ℕ → ℕ) (n : ℕ) (cells : List ℕ) → length (resize g n cells) ≡ n
unfolding resize
length-resize g n cells = omega (
  arith,
  length-append (take n cells) (fill (n - length cells) g),
  length-take n cells,
  length-fill (n - length cells) g,
)

put-overflow :
    (f : Field) (cells bytes : List ℕ)
    → length cells < f.cur_size + length bytes
    → put f cells bytes ≡ overflow f
unfolding put write_at
put-overflow f cells bytes h = ground arith

-- When the text reaches 2 ^ 16 bytes, its new size does not fit the `unsigned short`: the buffer is
-- made smaller, and the bytes are written past its end.
pub field_value_malloc_overflow :
    (g : ℕ → ℕ) (f : Field) (text bytes : List ℕ)
    → Ready f text
    → 2 ^ 16 ≤ length text + length bytes
    → (f' : Field) × (field_value_malloc (some g) f bytes ≡ overflow f')
field_value_malloc_overflow g f text bytes h big =
    let cells = text ++ h.old in
    let n = u16 (f.cur_size + length bytes) in
    let sum : f.cur_size + length bytes ≡ length text + length bytes = omega (arith, h) in
    let wrap : n + 1 < f.cur_size + length bytes = omega arith in
    let grow : ltb f.size (f.cur_size + length bytes) ≡ true = ground (arith, h.word) in
    let all = length-resize g (n + 1) cells in
    (
      record { str = some (moved g f bytes cells); cur_size = f.cur_size; size = n },
      grow-put g f cells bytes h.cells grow
          ∙ put-overflow
              (record { str = some (moved g f bytes cells); cur_size = f.cur_size; size = n })
              (moved g f bytes cells) bytes (omega arith),
    )

fresh-put :
    (g : ℕ → ℕ) (f : Field) (bytes : List ℕ)
    → f.str ≡ none
    → let size =
        u16
          (if ltb default_header_size (length bytes) then length bytes else default_header_size) in
      field_value_malloc (some g) f bytes
      ≡ put
          (record { str = some (fill (size + 1) (λ k. 0)); cur_size = 0; size = size })
          (fill (size + 1) (λ k. 0))
          bytes
unfolding field_value_malloc
fresh-put g f bytes e = ground arith

-- The first piece goes into a new buffer, of at least 128 bytes.
pub first-Holds :
    (g : ℕ → ℕ) (f : Field) (bytes : List ℕ)
    → f.str ≡ none
    → length bytes < 2 ^ 16
    → (f' : Field) × (field_value_malloc (some g) f bytes ≡ stored f') × Holds f' bytes
first-Holds g f bytes e small =
    let size =
      u16 (if ltb default_header_size (length bytes) then length bytes else default_header_size) in
    let enough : length bytes ≤ size = ground arith in
    let cells = fill (size + 1) (λ k. 0) in
    let all = length-fill (size + 1) (λ k. 0) in
    let (f', p, h) =
      put-Holds (record { str = some cells; cur_size = 0; size = size }) [] bytes cells refl
        (omega arith) (omega arith) (omega arith) in
    (f', fresh-put g f bytes e ∙ p, h)
