-- ===== src/Http/Parser.antt =====
-- The callbacks that httpclient/src/http.c hands to http_parser.
pub mod Header
pub mod Body
use linux_c_code.Base.{
  ℕ, zero, suc, ◌+◌, ◌*◌, ◌-◌, Bool, true, false, ◌&&◌, ◌||◌, Option, none, some, List, [], ◌∷◌,
  ◌++◌, ltb, leb, ◌==◌, not, if◌then◌else◌, length, take, drop,
}
use linux_c_code.Base.Int.{ℤ, pos, negsuc}
use linux_c_code.Http.Field.{
  Field, Stored, failed, overflow, stored, field_value_malloc, fill, resize, write_at,
}
use linux_c_code.Http.State.{
  Client, Statue, parsed_none, parsed_field, parsed_value, parsed_body, no_field,
}

-- The C string at the start of the bytes.
unfoldable pub c_string : List ℕ → List ℕ
c_string [] = []
c_string (b ∷ bs) = let rest = c_string bs in if b == 0 then [] else b ∷ rest

-- `tolower`
unfoldable pub to_lower : ℕ → ℕ
to_lower b = if leb 65 b && leb b 90 then b + 32 else b

-- `strcasecmp(s, t) == 0`
unfoldable pub same_name : List ℕ → List ℕ → Bool
same_name [] [] = true
same_name (a ∷ as') (b ∷ bs) = to_lower a == to_lower b && same_name as' bs
same_name _ _ = false

abbrev pub is_digit : ℕ → Bool
is_digit b = leb 48 b && leb b 57

-- `isspace`
abbrev pub is_space : ℕ → Bool
is_space b = b == 32 || (leb 9 b && leb b 13)

-- The digits that `atol` reads, for values that fit a `long`.
unfoldable pub read_digits : ℕ → List ℕ → ℕ
read_digits n [] = n
read_digits n (b ∷ bs) =
    let rest = read_digits (n * 10 + (b - 48)) bs in if is_digit b then rest else n

abbrev pub negate : ℕ → ℤ
negate zero = pos 0
negate (suc n) = negsuc n

-- `atol`
unfoldable pub atol : List ℕ → ℤ
atol [] = pos 0
atol (b ∷ bs) =
    let rest = atol bs in
    if is_space b
    then rest
    else (if b == 45
        then negate (read_digits 0 bs)
        else (if b == 43 then pos (read_digits 0 bs) else pos (read_digits 0 (b ∷ bs))))

-- "Location" and "Content-Length".
abbrev pub location : List ℕ
location = 76 ∷ 111 ∷ 99 ∷ 97 ∷ 116 ∷ 105 ∷ 111 ∷ 110 ∷ []

abbrev pub content_length_str : List ℕ
content_length_str =
    67 ∷ 111 ∷ 110 ∷ 116 ∷ 101 ∷ 110 ∷ 116 ∷ 45 ∷ 76 ∷ 101 ∷ 110 ∷ 103 ∷ 116 ∷ 104 ∷ []

-- What a callback answers to the parser: 0, -1, or a write past the end of a buffer.
pub data Answer : Type 0 where
  proceed : Client → Answer
  refuse : Client → Answer
  corrupt : Answer

-- The comparison of the complete header with the two that matter. The Boolean is a return of -1.
unfoldable pub use_header : (name value : List ℕ) → Client → Bool × Client
use_header name value c =
    let c' = record c {
      header_field = record c.header_field { cur_size = 0 };
      header_value = record c.header_value { cur_size = 0 };
    } in
    if same_name name location
    then (true, record c { redirect_url = some value; redirect = true })
    else (if same_name name content_length_str
        then (false, record c' { content_length = atol value })
        else (false, c'))

-- `parser_field_value`; `_strdup` is taken to find memory.
unfoldable pub parser_field_value : Client → Bool × Client
parser_field_value c =
    if ltb 0 c.header_value.cur_size && ltb 0 c.header_field.cur_size
    then (elim c.header_field.str [
      | none ↦ (false, c)
      | some name ↦ elim c.header_value.str [
        | none ↦ (false, c)
        | some value ↦ use_header (c_string name) (c_string value) c
      ]
    ])
    else (false, c)

abbrev pub is_value : Statue → Bool
is_value parsed_value = true
is_value _ = false

-- The piece of a name goes to `header_field`.
unfoldable pub store_field : Option (ℕ → ℕ) → List ℕ → Client → Answer
store_field alloc bytes c = elim (field_value_malloc alloc c.header_field bytes) [
  | failed f ↦ refuse (record c { header_field = f })
  | overflow f ↦ corrupt
  | stored f ↦ proceed (record c { header_field = f })
]

-- The piece of a value goes to `header_value`.
unfoldable pub store_value : Option (ℕ → ℕ) → List ℕ → Client → Answer
store_value alloc bytes c = elim (field_value_malloc alloc c.header_value bytes) [
  | failed f ↦ refuse (record c { header_value = f })
  | overflow f ↦ corrupt
  | stored f ↦ proceed (record c { header_value = f })
]

-- `on_header_field_cb`
unfoldable pub on_header_field_cb : Option (ℕ → ℕ) → List ℕ → Client → Answer
on_header_field_cb alloc bytes c =
    let (stop, c1) = if is_value c.statue then parser_field_value c else (false, c) in
    if stop then refuse c1 else store_field alloc bytes (record c1 { statue = parsed_field })

-- `on_header_value_cb`
unfoldable pub on_header_value_cb : Option (ℕ → ℕ) → List ℕ → Client → Answer
on_header_value_cb alloc bytes c = elim c.statue [
  | parsed_field ↦ store_value alloc bytes (record c { statue = parsed_value })
  | parsed_value ↦ store_value alloc bytes (record c { statue = parsed_value })
  | _ ↦ proceed c
]

-- `on_status_cb`, with the code that the parser has read.
unfoldable pub on_status_cb : ℕ → Client → Answer
on_status_cb code c = proceed (record c { status_code = code })

-- `on_headers_complete_cb`
unfoldable pub on_headers_complete_cb : Client → Answer
on_headers_complete_cb c =
    let (stop, c1) = parser_field_value c in
    if stop
    then refuse c1
    else proceed (record c1 {
      header_field = record c1.header_field { str = none; cur_size = 0 };
      header_value = record c1.header_value { str = none; cur_size = 0 };
      statue = parsed_body;
    })

-- Whether the content length is positive, and its value.
abbrev pub positive : ℤ → Option ℕ
positive (pos (suc n)) = some (suc n)
positive _ = none

-- The memory for the body after the first part of `on_body_cb`.
unfoldable pub body_memory : (ℕ → ℕ) → ℕ → Client → List ℕ
body_memory g n c = elim c.body [
  | none ↦ elim (positive c.content_length) [
    | some total ↦ fill (total + 1) (λ k. 0)
    | none ↦ fill (n + 1) (λ k. 0)
  ]
  | some cells ↦ elim (positive c.content_length) [
    | some total ↦ cells
    | none ↦ resize g (c.body_len + n + 1) cells
  ]
]

-- The second part of `on_body_cb`: the copy behind what is there.
unfoldable pub copy_body : List ℕ → List ℕ → Client → Answer
copy_body cells bytes c = elim (write_at c.body_len bytes cells) [
  | none ↦ corrupt
  | some cells1 ↦ proceed (record c { body = some cells1; body_len = c.body_len + length bytes })
]

-- `on_body_cb`
unfoldable pub on_body_cb : Option (ℕ → ℕ) → List ℕ → Client → Answer
on_body_cb (some g) bytes c = copy_body (body_memory g (length bytes) c) bytes c
on_body_cb none bytes c = elim c.body [
  | none ↦ refuse c
  | some cells ↦ elim (positive c.content_length) [
    | some total ↦ copy_body cells bytes c
    | none ↦ refuse (record c { body = none })
  ]
]

-- What `on_download_file_cb` does with an open file: the callback of the application, then the write.
unfoldable pub write_file : (report : Option Bool) → List ℕ → List ℕ → Client → Answer
write_file (some false) file bytes c = refuse c
write_file _ file bytes c = proceed (record c { file = some (file ++ bytes) })

-- `on_download_file_cb`; `opened` tells whether `fopen` succeeds, and `report` what the application's
-- callback answers: `none` for no callback, `some true` for 0. Every `fwrite` writes all.
unfoldable pub on_download_file_cb :
    (opened : Bool) → (report : Option Bool) → List ℕ → Client → Answer
on_download_file_cb opened report bytes c =
    if leb 200 c.status_code && leb c.status_code 299
    then (elim c.file [
      | some file ↦ write_file report file bytes c
      | none ↦ elim c.filename [
        | none ↦ refuse c
        | some name ↦
            if opened then write_file report [] bytes (record c { file = some [] }) else refuse c
      ]
    ])
    else proceed c
