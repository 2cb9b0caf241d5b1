-- ===== src/Http/Response.antt =====
-- The receive loop of `http_internal_sync_request` in httpclient/src/http.c. http_parser is a
-- parameter that turns bytes into the events for which it calls back.
pub mod Whole
pub mod Sized
use linux_c_code.Base.{
  ℕ, zero, suc, ◌+◌, ◌-◌, ◌*◌, Bool, true, false, ◌&&◌, Option, none, some, List, [], ◌∷◌, ltb, not,
  if◌then◌else◌, take, drop,
}
use linux_c_code.Base.Int.{ℤ, pos, negsuc}
use linux_c_code.Http.Field.{write_at}
use linux_c_code.Http.State.{Client, Statue, parsed_body, Error, parse_rep, socket_read}
use linux_c_code.Http.Socket.{Reply, Ended, read_write}
use linux_c_code.Http.Parser.{
  Answer, proceed, refuse, corrupt, on_status_cb, on_header_field_cb, on_header_value_cb,
  on_headers_complete_cb, on_body_cb, on_download_file_cb, positive,
}

-- What http_parser finds in the bytes, one callback each.
pub data Event : Type 0 where
  status : (code : ℕ) → Event
  header_field header_value : List ℕ → Event
  headers_complete : Event
  body : List ℕ → Event
  message_complete : Event

-- The machine around the callbacks: memory, `fopen`, and the callback of the application.
pub record Machine : Type 0 where
  pub alloc : Option (ℕ → ℕ)
  pub opened : Bool
  pub report : Option Bool

-- The callback for the body, as `parser_setting.on_body` is set.
unfoldable pub body_cb : Machine → List ℕ → Client → Answer
body_cb m bytes c =
    if c.download then on_download_file_cb m.opened m.report bytes c else on_body_cb m.alloc bytes c

-- The callback for an event, as `parser_setting` is filled in; `on_message_complete_cb` does nothing.
unfoldable pub call_back : Machine → Event → Client → Answer
call_back m (status code) c = on_status_cb code c
call_back m (header_field bytes) c = on_header_field_cb m.alloc bytes c
call_back m (header_value bytes) c = on_header_value_cb m.alloc bytes c
call_back m headers_complete c = on_headers_complete_cb c
call_back m (body bytes) c = body_cb m bytes c
call_back m message_complete c = proceed c

-- The callbacks for the events, until one does not return 0.
unfoldable pub run_events : Machine → List Event → Client → Answer
run_events m [] c = proceed c
run_events m (e ∷ es) c = elim (call_back m e c) [
  | proceed c' ↦ run_events m es c'
  | refuse c' ↦ refuse c'
  | corrupt ↦ corrupt
]

abbrev pub recv_buf_size : ℕ
recv_buf_size = 4 * 1_024

-- How the receive loop ends.
pub data Received : Type 0 where
  -- It is left by a `break`.
  left : Client → Received
  -- The function returns an error.
  failed_with : Error → Client → Received
  -- A write outside of the memory.
  overwritten : Received
  -- The kernel's answers ran out.
  waiting : Received

abbrev pub is_body : Statue → Bool
is_body parsed_body = true
is_body _ = false

-- The number of bytes of the body, if the loop reads it without the parser: the test of the `if`.
unfoldable pub direct_total : Client → Option ℕ
direct_total c =
    if not c.download && is_body c.statue
    then (elim c.body [ none ↦ none | some cells ↦ positive c.content_length ])
    else none

-- The end of the direct read, with the bytes in their place.
unfoldable pub direct_end : (result : ℤ) → Client → Received
direct_end (pos n) c = left (record c { body_len = c.body_len + n })
direct_end (negsuc n) c = failed_with socket_read (record c { error_code = socket_read })

-- The bytes that the kernel has moved go behind the body.
unfoldable pub direct_store : Ended → List ℕ → Client → Received
direct_store e stream c = elim c.body [
  | none ↦ left c
  | some cells ↦ elim (write_at c.body_len (take e.moved stream) cells) [
    | none ↦ overwritten
    | some cells1 ↦ direct_end e.result (record c { body = some cells1 })
  ]
]

-- The direct read of the rest of the body: one call of `http_read_write`. A length below zero is a
-- size beyond all memory for `recv`.
unfoldable pub direct_read : (total : ℕ) → List Reply → List ℕ → Client → Received
direct_read total rs stream c =
    if ltb total c.body_len
    then overwritten
    else (elim (read_write c.exit (pos c.timeout) (total - c.body_len) rs) [
      | none ↦ waiting
      | some e ↦ direct_store e stream c
    ])

-- After the callbacks of one buffer: `more` is the rest of the loop, for a client.
unfoldable pub parsed_end : (error : Bool) → (more : Client → Received) → Answer → Received
parsed_end error more corrupt = overwritten
parsed_end error more (refuse c) =
    if c.redirect then left c else failed_with parse_rep (record c { error_code = parse_rep })
parsed_end error more (proceed c) =
    if c.redirect
    then left c
    else (if error then failed_with parse_rep (record c { error_code = parse_rep }) else more c)

module _ {P : Type 0} (execute : P → List ℕ → List Event × Bool × P) where
  -- A round with the parser, by what `http_read_write` returns. `more` is the rest of the loop.
  -- `execute` gives the events, whether the parser finds an error, and its next state.
  unfoldable pub buffered :
      Machine
      → (more : P → List ℕ → Client → Received) → P
      → List ℕ
      → Client
      → (nread : ℤ) → Received
  buffered m more p stream c (pos zero) = left c
  buffered m more p stream c (pos (suc n)) =
      let (events, error, p') = execute p (take (suc n) stream) in
      parsed_end error (λ c'. more p' (drop (suc n) stream) c') (run_events m events c)
  buffered m more p stream c (negsuc n) =
      failed_with socket_read (record c { error_code = socket_read })

  -- The receive loop, one answer list and one machine for each round. `stream` is what the other side
  -- sends.
  unfoldable pub receive : List (List Reply × Machine) → P → (stream : List ℕ) → Client → Received
  receive [] p stream c = waiting
  receive ((rs, m) ∷ rounds) p stream c = elim (direct_total c) [
    | some total ↦ direct_read total rs stream c
    | none ↦ elim (read_write c.exit (pos c.timeout) recv_buf_size rs) [
      | none ↦ waiting
      | some e ↦ buffered m (λ p' s c'. receive rounds p' s c') p stream c e.result
    ]
  ]
