-- ===== src/Http/Tests.antt =====
-- Runs of the client of httpclient/src/http.c on small inputs, and its theorems at these.
mod Transport
mod Success
mod Sockets
use linux_c_code.Base.Decimal.{decimal, digits_back, reverse_onto}
use linux_c_code.Base.{true, ℕ, ◌≡◌, refl, false, none, some, List, [], ◌∷◌, ◌++◌, arith, inl}
use linux_c_code.Base.Int.{negsuc, pos}
use linux_c_code.Http.Field.{Field, stored, overflow, field_value_malloc, fill}
use linux_c_code.Http.Field.Grow.{Holds, Ready, Holds-Ready, field_value_malloc-Holds, length-fill}
use linux_c_code.Http.Field.Limits.{field_value_malloc_overflow}
use linux_c_code.Http.State.{socket_write, Client, new, get, parsed_field, parsed_value}
use linux_c_code.Http.Parser.{
  proceed, on_header_value_cb, on_body_cb, parser_field_value, use_header, atol, read_digits,
  same_name, to_lower, content_length_str,
}
use linux_c_code.Http.Parser.Header.{concat, feed, on_header_value_cb-feed, parser_field_value_lem}
use linux_c_code.Http.Parser.Body.{HasBody, on_body_cb-feed}
use linux_c_code.Http.Socket.{
  transfer, check_error, count, error, Ended, read_write, check_error, Reply,
}
use linux_c_code.Http.Request.{
  send_all, Url, request_pieces, method_pieces, target_pieces, header_pieces, length_pieces,
  data_pieces, get_str, version_host, fixed_headers, crlf,
}
use linux_c_code.Http.Request.Sent.{send_all-prefix}
use linux_c_code.Http.Socket.Transfer.{counts}
use linux_c_code.Http.Socket.Ending.{Ending, read_write_lem}

abbrev junk : ℕ → ℕ
junk k = 7

-- A buffer of four bytes and a terminator that holds two.
abbrev small : Field
small = record { str = some (49 ∷ 50 ∷ 0 ∷ 0 ∷ 0 ∷ []); cur_size = 2; size = 4 }

small-Holds : Holds small (49 ∷ 50 ∷ [])
small-Holds = record {
  rest = 0 ∷ 0 ∷ [];
  cells = refl;
  used = refl;
  room = refl;
  word = omega arith;
}

small-Ready : Ready small (49 ∷ 50 ∷ [])
small-Ready = Holds-Ready small (49 ∷ 50 ∷ []) small-Holds

-- Four more bytes make it grow.
field_value_malloc-Holds_example :
    (f : Field) × (field_value_malloc (some junk) small (51 ∷ 52 ∷ 53 ∷ 54 ∷ []) ≡ stored f)
    × Holds f (49 ∷ 50 ∷ 51 ∷ 52 ∷ 53 ∷ 54 ∷ [])
field_value_malloc-Holds_example =
    field_value_malloc-Holds junk small (49 ∷ 50 ∷ []) (51 ∷ 52 ∷ 53 ∷ 54 ∷ []) small-Ready
      (omega arith)

abbrev in_value : Client
in_value = record new { statue = parsed_field; header_value = small }

abbrev name_field : Field
name_field = record { str = some (content_length_str ++ (0 ∷ [])); cur_size = 14; size = 14 }

name-Holds : Holds name_field content_length_str
name-Holds = record { rest = []; cells = refl; used = refl; room = refl; word = omega arith }

abbrev with_header : Client
with_header = record new { header_field = name_field; header_value = small; statue = parsed_value }

content_length_run :
    (use_header content_length_str (49 ∷ 50 ∷ []) with_header).1.content_length ≡ pos 12
unfolding use_header same_name to_lower atol read_digits
content_length_run = refl

-- A call that is interrupted, and three that move a byte each.
abbrev replies : List Reply
replies = error 4 [] ∷ count 1 ∷ count 1 ∷ count 1 ∷ []

read_write_example :
    (read_write true (pos 100) 3 replies ≡ some (record { result = negsuc 0; moved = 0 }))
    × (out : Ended) × (read_write false (pos 100) 3 replies ≡ some out)
    × Ending (pos 100) 3 0 replies out
unfolding counts check_error
read_write_example =
    read_write_lem (pos 100) 3 replies (omega arith, (omega arith, (omega arith, tt))) (omega arith)
      (omega arith) (λ e. ground arith, tt)

-- The request for a page without a query.
abbrev page : Url
page = record { host = 104 ∷ []; path = some (47 ∷ 97 ∷ []); query = none }

request_run :
    request_pieces get page none []
    ≡ get_str ∷ (47 ∷ 97 ∷ []) ∷ version_host ∷ (104 ∷ []) ∷ fixed_headers ∷ crlf ∷ []
unfolding request_pieces method_pieces target_pieces header_pieces length_pieces data_pieces
request_run = refl

decimal_run : decimal 1_203 ≡ 49 ∷ 50 ∷ 48 ∷ 51 ∷ []
unfolding decimal digits_back reverse_onto
decimal_run = refl

-- The first piece is out; of the second one byte, before an error.
whole_piece :
    read_write false (pos 100) 2 (count 2 ∷ []) ≡ some (record { result = pos 2; moved = 2 })
unfolding read_write transfer check_error
whole_piece = refl

broken_piece :
    read_write false (pos 100) 3 (count 1 ∷ error 32 [] ∷ [])
    ≡ some (record { result = negsuc 0; moved = 1 })
unfolding read_write transfer check_error
broken_piece = refl

send_all-prefix_example :
    send_all false
      (pos 100)
      ((1 ∷ 2 ∷ []) ∷ (3 ∷ 4 ∷ 5 ∷ []) ∷ (6 ∷ []) ∷ [])
      ((count 2 ∷ []) ∷ (count 1 ∷ error 32 [] ∷ []) ∷ [])
    ≡ some (socket_write, 1 ∷ 2 ∷ 3 ∷ [])
unfolding concat
send_all-prefix_example =
    send_all-prefix (pos 100) ((1 ∷ 2 ∷ []) ∷ []) ((count 2 ∷ []) ∷ []) (3 ∷ 4 ∷ 5 ∷ [])
      (count 1 ∷ error 32 [] ∷ []) ((6 ∷ []) ∷ []) [] 1 (omega arith, whole_piece, tt) refl
      broken_piece
