-- ===== src/Http/Tests/Transport.antt =====
-- The connection, the receive loop and whole requests of httpclient/src/http.c on small inputs, and
-- the theorems at these.
use linux_c_code.Http.Connect.Dialing.{Established, connect_loop-Established, still, at_once}
use linux_c_code.Base.{
  ◌++◌, inl, ℕ, ◌<◌, ◌≡◌, refl, Bool, true, false, Option, none, some, List, [], ◌∷◌, ap₂, ◌∙◌, ◌↔◌,
  length, replicate,
}
use linux_c_code.Base.Int.{pos}
use linux_c_code.Http.Field.{fill, write_at, put, resize, field_value_malloc}
use linux_c_code.Http.State.{Client, new, parsed_body, ok, url_invalid, socket_connect}
use linux_c_code.Http.Socket.{
  Wait, interrupted, read_write, transfer, count, Reply, ready, select_loop, socket_select,
  check_error,
}
use linux_c_code.Http.Parser.{
  location, c_string, same_name, to_lower, use_header, parser_field_value, store_field, store_value,
  on_header_field_cb, on_header_value_cb, on_headers_complete_cb,
}
use linux_c_code.Http.Connect.{
  Dial, joined, refused, after_wait, connect_loop, Parts, Network, connect_host, overrun, part_text,
  schema_fine, connect_name, resolve, open_socket, socket_noblocking_on, port_of,
}
use linux_c_code.Http.Connect.Hosts.{connect_host-overrun}
use linux_c_code.Http.Response.{
  Event, body, header_field, header_value, headers_complete, Machine, receive, left, direct_total,
  buffered, parsed_end, run_events, call_back,
}
use linux_c_code.Http.Request.{
  send_all, request_pieces, method_pieces, target_pieces, header_pieces, length_pieces, data_pieces,
}
use linux_c_code.Http.Response.Whole.{something, Carries, total, receive_lem}
use linux_c_code.Http.Sync.{
  Trip, Leg, redirected, ended, exchange, url_of, after_receive, unanswered, internal_request,
  connection,
}
use linux_c_code.Http.Client.{reset}
use linux_c_code.Http.Sync.Codes.{internal_request-error_code}
use linux_c_code.Http.Sync.Redirects.{internal_request-replicate}

-- A call is interrupted, and one succeeds.
abbrev dials : List Dial
dials = refused 4 [] ∷ joined ∷ []

-- A wait that a signal interrupts after 30 of 100 ms, and after which the socket is ready.
abbrev waited : List Wait
waited = interrupted (pos 30) ∷ ready true ∷ []

connect_loop_example :
    (connect_loop (pos 100) (dials ++ (refused 115 waited ∷ [])) ≡ some ok)
    ↔ Established (pos 100) (dials ++ (refused 115 waited ∷ []))
connect_loop_example = connect_loop-Established (pos 100) (dials ++ (refused 115 waited ∷ [])) refl

-- The connection of the example is made.
dials-Established : Established (pos 100) (dials ++ (refused 115 waited ∷ []))
dials-Established = record {
  before = dials;
  errno = 115;
  waits = waited;
  after = [];
  split = refl;
  again = (refl, tt);
  under_way = inl refl;
  writable = still (pos 30) (ready true ∷ []) refl (at_once []);
}

-- A success, and EISCONN from the call after it.
joined_run : connect_loop (pos 100) (joined ∷ refused 106 [] ∷ []) ≡ some socket_connect
unfolding connect_loop
joined_run = refl

abbrev local : Network
local = record {
  inet_addr = λ name. 16_777_343;
  gethostbyname = λ name. some 16_777_343;
  socket = true;
  linger = true;
  getfl = some 2;
  setfl = λ flags. true;
  dials = λ address port. refused 115 (ready true ∷ []) ∷ [];
}

abbrev long_host : Parts
long_host = record {
  schema = none;
  host = some (record { off = 0; len = 300 });
  port = none;
  path = none;
  query = none;
}

connect_host-overrun_example :
    (connect_host local (pos 100) (fill 300 (λ k. 97)) long_host ≡ overrun)
    ↔ (256 < length (part_text (fill 300 (λ k. 97)) (record { off = 0; len = 300 })))
unfolding schema_fine
connect_host-overrun_example =
    connect_host-overrun local (pos 100) (fill 300 (λ k. 97)) long_host
      (record { off = 0; len = 300 }) refl refl

abbrev junk : ℕ → ℕ
junk k = 7

abbrev machine : Machine
machine = record { alloc = some junk; opened = true; report = none }

-- A parser that is inside the body.
abbrev pass : Bool → List ℕ → List Event × Bool × Bool
pass u bytes = (body bytes ∷ [], false, u)

abbrev asked : Client
asked = record new { timeout = 100 }

-- A client whose body has begun behind the headers.
abbrev begun : Client
begun = record asked { body = some (9 ∷ 7 ∷ []); body_len = 1 }

-- One read of two packets, which the end of the connection closes, and the next one, which finds the end.
abbrev reads : List (List Reply × Machine)
reads = (count 2 ∷ count 1 ∷ count 0 ∷ [], machine) ∷ (count 0 ∷ [], machine) ∷ []

receive_example :
    (c' : Client) × (receive pass reads false (1 ∷ 2 ∷ 3 ∷ []) begun ≡ left c')
    × Carries c' (9 ∷ 1 ∷ 2 ∷ 3 ∷ [])
    × (c'.error_code ≡ ok)
unfolding new read_write transfer total
receive_example =
    receive_lem pass reads (2 ∷ []) false (1 ∷ 2 ∷ 3 ∷ []) 100 begun (9 ∷ []) (λ bytes. refl)
      (record {
        download = refl;
        exit = refl;
        timeout_same = refl;
        redirect = refl;
        no_length = refl;
      })
      (something (record { rest = 7 ∷ []; cells = refl; used = refl; terminator = refl }))
      (refl, (junk, refl), refl)

-- The body has one byte of four; the other side sends two more and closes.
abbrev in_body : Client
in_body = record new {
  timeout = 100;
  statue = parsed_body;
  content_length = pos 4;
  body = some (9 ∷ 0 ∷ 0 ∷ 0 ∷ 0 ∷ []);
  body_len = 1;
}

abbrev here : List ℕ
here = 104 ∷ []

abbrev parts : List ℕ → Option Parts
parts url = some (record {
  schema = none;
  host = some (record { off = 0; len = 1 });
  port = none;
  path = none;
  query = none;
})

-- A parser that finds a redirect to the same place in whatever comes.
abbrev moved_here : Bool → List ℕ → List Event × Bool × Bool
moved_here u bytes = (header_field location ∷ header_value here ∷ headers_complete ∷ [], false, u)

abbrev answers : List (List Reply)
answers =
    (count 4 ∷ [])
    ∷ (count 1 ∷ [])
    ∷ (count 16 ∷ [])
    ∷ (count 1 ∷ [])
    ∷ (count 120 ∷ [])
    ∷ (count 2 ∷ [])
    ∷ []

abbrev trip : Trip
trip = record {
  net = local;
  sends = answers;
  rounds = (count 1 ∷ count 0 ∷ [], machine) ∷ [];
  stream = 72 ∷ [];
}

abbrev no_parts : List ℕ → Option Parts
no_parts url = none

abbrev refused_url : Client
refused_url = record new { timeout = 15_000; error_code = url_invalid }

internal_request-error_code_example : refused_url.error_code ≡ url_invalid
unfolding new internal_request connection reset
internal_request-error_code_example =
    internal_request-error_code no_parts false moved_here (trip ∷ []) here [] none new url_invalid
      refused_url refl

-- A client that goes in circles: after each redirect it starts in the same state.
abbrev circling : Client
circling = record new { redirect_url = some here; timeout = 15_000 }

abbrev client_of : Leg → Client
client_of (redirected url c) = c
client_of (ended f) = circling

abbrev leg : Client → Leg
leg c = connection parts false moved_here trip here [] none c

circle :
    (leg circling ≡ redirected here (client_of (leg circling)))
    × (reset (client_of (leg circling)) ≡ circling)
unfolding new connection connect_host schema_fine connect_name write_at fill resolve c_string
    open_socket socket_noblocking_on connect_loop after_wait socket_select select_loop check_error
    exchange send_all request_pieces url_of method_pieces target_pieces header_pieces length_pieces
    data_pieces read_write transfer receive direct_total buffered parsed_end run_events call_back
    on_header_field_cb on_header_value_cb on_headers_complete_cb parser_field_value use_header
    same_name to_lower store_field store_value field_value_malloc put resize after_receive reset
    port_of
circle = (refl, refl)

abbrev Circles : List ℕ → Client → Type 0
Circles url c = (url ≡ here) × (reset c ≡ circling)

again :
    (url : List ℕ) (c : Client)
    → Circles url c
    → (url' : List ℕ) × (c' : Client) × Circles url' c'
      × (connection parts false moved_here trip url [] none (reset c) ≡ redirected url' c')
again url c (u, k) = (
  here,
  client_of (leg circling),
  (refl, circle.1),
  ap₂ (λ a b. connection parts false moved_here trip a [] none b) u k ∙ circle.0,
)

internal_request-replicate_example :
    internal_request parts false moved_here (replicate 1_000 trip) here [] none circling
    ≡ unanswered
unfolding new reset
internal_request-replicate_example =
    internal_request-replicate parts false moved_here 1_000 trip Circles [] none here circling again
      (refl, refl)
