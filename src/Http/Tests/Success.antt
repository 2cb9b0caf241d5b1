-- ===== src/Http/Tests/Success.antt =====
-- A request of httpclient/src/http.c that succeeds, and the theorem there.
use linux_c_code.Base.{drop, ℕ, Bool, true, false, Option, none, some, List, [], ◌∷◌}
use linux_c_code.Http.State.{Client, new, parsed_body}
use linux_c_code.Http.Socket.{Reply, count, ready}
use linux_c_code.Http.Connect.{Parts, Network, refused}
use linux_c_code.Http.Response.{Event, status, headers_complete, body, Machine}

abbrev here : List ℕ
here = 104 ∷ []

abbrev here_parts : Parts
here_parts = record {
  schema = none;
  host = some (record { off = 0; len = 1 });
  port = none;
  path = none;
  query = none;
}

abbrev parse_here : List ℕ → Option Parts
parse_here url = some here_parts

abbrev near : Network
near = record {
  inet_addr = λ name. 16_777_343;
  gethostbyname = λ name. some 16_777_343;
  socket = true;
  linger = true;
  getfl = some 2;
  setfl = λ flags. true;
  dials = λ address port. refused 115 (ready true ∷ []) ∷ [];
}

abbrev sends : List (List Reply)
sends =
    (count 4 ∷ [])
    ∷ (count 1 ∷ [])
    ∷ (count 16 ∷ [])
    ∷ (count 1 ∷ [])
    ∷ (count 120 ∷ [])
    ∷ (count 2 ∷ [])
    ∷ []

abbrev memory : Machine
memory = record { alloc = some (λ k. 7); opened = true; report = none }

-- A parser that takes the first two bytes as the headers, and is then inside the body.
abbrev two_parts : Bool → List ℕ → List Event × Bool × Bool
two_parts false bytes = (status 200 ∷ headers_complete ∷ body (drop 2 bytes) ∷ [], false, true)
two_parts true bytes = (body bytes ∷ [], false, true)

abbrev answered : Client
answered = record new {
  timeout = 15_000;
  status_code = 200;
  statue = parsed_body;
  body = some (3 ∷ 4 ∷ 5 ∷ 0 ∷ []);
  body_len = 3;
}
