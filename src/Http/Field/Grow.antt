-- ===== src/Http/Field/Grow.antt =====
-- What the buffer of `_field_value_malloc` in httpclient/src/http.c holds.
use mathlib.Core.List.{append_assoc}
use linux_c_code.Base.{
  ℕ, zero, suc, ◌+◌, ◌-◌, ◌^◌, ◌<◌, ◌≤◌, ◌≡◌, refl, sym, ap, ap₂, ◌∙◌, true, false, Option, some,
  List, [], ◌∷◌, ◌++◌, ltb, leb, length, length-append, drop, arith, Bool-cases, inl, inr,
}
use linux_c_code.Base.Slices.{take-append, take-of_length_le, drop-cons}
use linux_c_code.Http.Field.{Field, stored, fill, resize, write_at, put, field_value_malloc, u16}

-- The buffer holds the text as a C string, and its sizes are those of the text and the memory.
pub record Holds (f : Field) (text : List ℕ) : Type 0 where
  pub rest : List ℕ
  pub cells : f.str ≡ some (text ++ (0 ∷ rest))
  pub used : f.cur_size ≡ length text
  pub room : length text + length rest ≡ f.size
  pub word : f.size < 2 ^ 16

pub length-fill : (n : ℕ) (g : ℕ → ℕ) → length (fill n g) ≡ n
unfolding fill
length-fill zero g = refl
length-fill (suc n) g = omega (arith, length-fill n g)

drop-behind : (text old : List ℕ) (k : ℕ) → drop (length text + k) (text ++ old) ≡ drop k old
drop-behind [] old k = ap (λ n. drop n old) (omega arith)
drop-behind (x ∷ text) old k =
    let e : suc (length text) + k ≡ suc (length text + k) = omega arith in
    rw e (drop-behind text old k)

pub write-behind :
    (text bytes old : List ℕ)
    → length bytes ≤ length old
    → write_at (length text) bytes (text ++ old) ≡ some (text ++ (bytes ++ drop (length bytes) old))
unfolding write_at
write-behind text bytes old h =
    let fits : leb (length text + length bytes) (length (text ++ old)) ≡ true =
      ground (arith, length-append text old) in
    rw fits (
      ap some (
        ap₂ (λ x y. x ++ (bytes ++ y)) (take-append (length text) text old refl)
          (drop-behind text old (length bytes))))

put-stored :
    (f : Field) (cells bytes cells1 cells2 : List ℕ) (cur : ℕ)
    → u16 (f.cur_size + length bytes) ≡ cur
    → write_at f.cur_size bytes cells ≡ some cells1
    → write_at cur (0 ∷ []) cells1 ≡ some cells2
    → put f cells bytes ≡ stored (record { str = some cells2; cur_size = cur; size = f.size })
unfolding put
put-stored f cells bytes cells1 cells2 cur w a b = ground arith

pub length-drop : (k : ℕ) (xs : List ℕ) → length (drop k xs) ≡ length xs - k
length-drop zero xs = omega arith
length-drop (suc k) [] = omega arith
length-drop (suc k) (x ∷ xs) = omega (arith, length-drop k xs)

-- The bytes and the terminator go behind the text if there is room for both.
pub put-Holds :
    (f : Field) (text bytes old : List ℕ)
    → f.cur_size ≡ length text
    → length bytes < length old
    → length text + length old ≡ f.size + 1
    → f.size < 2 ^ 16
    → (f' : Field) × (put f (text ++ old) bytes ≡ stored f') × Holds f' (text ++ bytes)
put-Holds f text bytes old cur small room word =
    let (z, at, tail) = drop-cons (length bytes) old small in
    let rest = drop (length bytes + 1) old in
    let wide : u16 (f.cur_size + length bytes) ≡ length (text ++ bytes) =
      omega (arith, length-append text bytes) in
    let first : write_at f.cur_size bytes (text ++ old) ≡ some ((text ++ bytes) ++ (z ∷ rest)) =
      ap (λ n. write_at n bytes (text ++ old)) cur
      ∙ write-behind text bytes old (omega arith)
      ∙ ap (λ x. some (text ++ (bytes ++ x))) tail
      ∙ ap some (sym (append_assoc text bytes (z ∷ rest))) in
    let second : write_at (length (text ++ bytes)) (0 ∷ []) ((text ++ bytes) ++ (z ∷ rest))
        ≡ some ((text ++ bytes) ++ (0 ∷ rest)) =
      write-behind (text ++ bytes) (0 ∷ []) (z ∷ rest) (omega arith) in
    (
      record {
        str = some ((text ++ bytes) ++ (0 ∷ rest));
        cur_size = length (text ++ bytes);
        size = f.size;
      },
      put-stored f (text ++ old) bytes ((text ++ bytes) ++ (z ∷ rest))
          ((text ++ bytes) ++ (0 ∷ rest)) (length (text ++ bytes)) wide first second,
      record {
        rest = rest;
        cells = refl;
        used = refl;
        room = omega (arith, length-append text bytes, length-drop (length bytes + 1) old);
        word = word;
      },
    )

fits-put :
    (alloc : Option (ℕ → ℕ)) (f : Field) (cells bytes : List ℕ)
    → f.str ≡ some cells
    → ltb f.size (f.cur_size + length bytes) ≡ false
    → field_value_malloc alloc f bytes ≡ put f cells bytes
unfolding field_value_malloc
fits-put alloc f cells bytes e h = ground arith

abbrev pub moved : (ℕ → ℕ) → Field → List ℕ → List ℕ → List ℕ
moved g f bytes cells = resize g (u16 (f.cur_size + length bytes) + 1) cells

pub grow-put :
    (g : ℕ → ℕ) (f : Field) (cells bytes : List ℕ)
    → f.str ≡ some cells
    → ltb f.size (f.cur_size + length bytes) ≡ true
    → field_value_malloc (some g) f bytes
      ≡ put
          (record {
            str = some (moved g f bytes cells);
            cur_size = f.cur_size;
            size = u16 (f.cur_size + length bytes);
          })
          (moved g f bytes cells)
          bytes
unfolding field_value_malloc
grow-put g f cells bytes e h = ground arith

pub resize-more :
    (g : ℕ → ℕ) (n : ℕ) (cells : List ℕ)
    → length cells ≤ n
    → resize g n cells ≡ cells ++ fill (n - length cells) g
unfolding resize
resize-more g n cells h = ap (λ x. x ++ fill (n - length cells) g) (take-of_length_le n cells h)

-- The buffer has room behind a text that it begins with, which need not end there.
pub record Ready (f : Field) (text : List ℕ) : Type 0 where
  pub old : List ℕ
  pub cells : f.str ≡ some (text ++ old)
  pub used : f.cur_size ≡ length text
  pub room : length text + length old ≡ f.size + 1
  pub some_room : 0 < length old
  pub word : f.size < 2 ^ 16

pub Holds-Ready : (f : Field) (text : List ℕ) → Holds f text → Ready f text
Holds-Ready f text h = record {
  old = 0 ∷ h.rest;
  cells = h.cells;
  used = h.used;
  room = omega (arith, h);
  some_room = omega arith;
  word = h.word;
}

-- `_field_value_malloc` puts the bytes behind the text that the buffer begins with, and leaves a C
-- string with the right sizes, whether it has to grow or not: if memory is there and the whole text
-- is shorter than 2 ^ 16.
pub field_value_malloc-Holds :
    (g : ℕ → ℕ) (f : Field) (text bytes : List ℕ)
    → Ready f text
    → length text + length bytes < 2 ^ 16
    → (f' : Field) × (field_value_malloc (some g) f bytes ≡ stored f') × Holds f' (text ++ bytes)
field_value_malloc-Holds g f text bytes h small =
    let cells = text ++ h.old in
    let size : length cells ≡ f.size + 1 = omega (arith, length-append text h.old, h) in
    elim (Bool-cases (ltb f.size (f.cur_size + length bytes))) [
      | inl grow ↦
          let n = u16 (f.cur_size + length bytes) in
          let wide : n ≡ length text + length bytes = omega (arith, h) in
          let more : f.size < length text + length bytes = ground (arith, h.used) in
          let old = h.old ++ fill (n + 1 - length cells) g in
          let m : moved g f bytes cells ≡ text ++ old =
            resize-more g (n + 1) cells (omega arith)
            ∙ append_assoc text h.old (fill (n + 1 - length cells) g) in
          let all : length old ≡ n + 1 - length text = omega (
            arith,
            length-append h.old (fill (n + 1 - length cells) g),
            length-fill (n + 1 - length cells) g,
            h,
          ) in
          let (f', e, h') =
            put-Holds (record { str = some (text ++ old); cur_size = f.cur_size; size = n }) text
              bytes old h.used (omega arith) (omega arith) (omega arith) in
          (
            f',
            grow-put g f cells bytes h.cells grow
                ∙ ap (λ x. put (record { str = some x; cur_size = f.cur_size; size = n }) x bytes) m
                ∙ e,
            h',
          )
      | inr fits ↦
          let less : length text + length bytes ≤ f.size = ground (arith, h.used) in
          let (f', e, h') =
            put-Holds f text bytes h.old h.used (omega (arith, h)) (omega (arith, h)) h.word in
          (f', fits-put (some g) f cells bytes h.cells fits ∙ e, h')
    ]
