-- ===== src/Http/Sync/Codes.antt =====
-- The error code that a request of httpclient/src/http.c leaves in the client.
use linux_c_code.Base.{
  ℕ, zero, suc, ◌≡◌, ap, Bool, Option, none, some, List, [], ◌∷◌, take, drop, arith, if◌then◌else◌,
}
use linux_c_code.Base.Int.{ℤ, pos, negsuc}
use linux_c_code.Http.State.{Client, Error, url_invalid}
use linux_c_code.Http.Socket.{Reply, Ended, read_write}
use linux_c_code.Http.Parser.{Answer, proceed, refuse, corrupt}
use linux_c_code.Http.Connect.{Parts, Connected, overrun, returned, connect_host}
use linux_c_code.Http.Response.{
  Event, Machine, Received, left, failed_with, overwritten, waiting, receive, direct_read,
  direct_store, direct_end, direct_total, parsed_end, buffered, run_events, recv_buf_size,
}
use linux_c_code.Http.Client.{reset}
use linux_c_code.Http.Sync.{
  Trip, Finished, done, crashed, unanswered, Leg, ended, redirected, is_ok, fail, terminate_body,
  close_download, after_receive, exchange, connection, internal_request,
}

-- An error of the loop is the code in the client.
abbrev Coded : Received → Type 0
Coded r = (code : Error) (c : Client) → r ≡ failed_with code c → c.error_code ≡ code

-- A return of the function gives the code in the client.
abbrev FinishedCoded : Finished → Type 0
FinishedCoded f = (code : Error) (c : Client) → f ≡ done code c → c.error_code ≡ code

direct_read-Coded :
    (total : ℕ) (rs : List Reply) (stream : List ℕ) (c : Client)
    → Coded (direct_read total rs stream c)
unfolding direct_read direct_store direct_end
direct_read-Coded total rs stream c code c' e = ground (arith, e)

parsed_end-Coded :
    (error : Bool) (more : Client → Received) (a : Answer)
    → ((c : Client) → Coded (more c))
    → Coded (parsed_end error more a)
unfolding parsed_end
parsed_end-Coded error more corrupt h code c' e = ground (arith, e)
parsed_end-Coded error more (refuse c) h code c' e = ground (arith, e)
parsed_end-Coded error more (proceed c) h code c' e = let k = h c code c' in ground (arith, e, k)

module _ {P : Type 0} (execute : P → List ℕ → List Event × Bool × P) where
  buffered-Coded :
      (m : Machine) (more : P → List ℕ → Client → Received) (p : P) (stream : List ℕ) (c : Client)
      (nread : ℤ)
      → ((p' : P) (s : List ℕ) (c' : Client) → Coded (more p' s c'))
      → Coded (buffered execute m more p stream c nread)
  unfolding buffered
  buffered-Coded m more p stream c (pos zero) h = λ code c' e. ground (arith, e)
  buffered-Coded m more p stream c (negsuc n) h = λ code c' e. ground (arith, e)
  buffered-Coded m more p stream c (pos (suc n)) h =
      let (events, error, p') = execute p (take (suc n) stream) in
      parsed_end-Coded error (λ d. more p' (drop (suc n) stream) d) (run_events m events c)
        (h p' (drop (suc n) stream))

  -- A round, by whether it reads into the body and by what the kernel answers.
  round-Coded :
      (rs : List Reply) (stream : List ℕ) (c : Client) (later : ℤ → Received) (total : Option ℕ)
      (read : Option Ended)
      → ((n : ℤ) → Coded (later n))
      → Coded (elim total as (λ _. Received) [
        | some t ↦ direct_read t rs stream c
        | none ↦ elim read [ none ↦ waiting | some e ↦ later e.result ]
      ])
  round-Coded rs stream c later (some t) read h = direct_read-Coded t rs stream c
  round-Coded rs stream c later none (some e) h = h e.result
  round-Coded rs stream c later none none h = λ code c' e. ground (arith, e)

  receive-Coded :
      (rounds : List (List Reply × Machine)) (p : P) (stream : List ℕ) (c : Client)
      → Coded (receive execute rounds p stream c)
  unfolding receive
  receive-Coded [] p stream c = λ code c' e. ground (arith, e)
  receive-Coded ((rs, m) ∷ rounds) p stream c =
      let more = λ (p' : P) (s : List ℕ) (d : Client). receive execute rounds p' s d in
      round-Coded rs stream c (buffered execute m more p stream c) (direct_total c)
        (read_write c.exit (pos c.timeout) recv_buf_size rs)
        (λ n. buffered-Coded m more p stream c n (receive-Coded rounds))

-- A leg that ends the request gives the code in the client.
abbrev LegCoded : Leg → Type 0
LegCoded l = (code : Error) (c : Client) → l ≡ ended (done code c) → c.error_code ≡ code

terminate_body-Coded : (c : Client) → FinishedCoded (terminate_body c)
unfolding terminate_body
terminate_body-Coded c code c' e = ground (arith, e)

after_receive-Coded : (r : Received) → Coded r → LegCoded (after_receive r)
unfolding after_receive
after_receive-Coded (left c) h code c' e =
    let k = terminate_body-Coded (close_download c) code c' in ground (arith, e, k)
after_receive-Coded (failed_with code c) h d c' e = let k = h d c' in ground (arith, e, k)
after_receive-Coded overwritten h code c e = ground (arith, e)
after_receive-Coded waiting h code c e = ground (arith, e)

-- From the resolver on, by what `http_connect_host` answers.
dialled :
    (r : Connected) (fine : Leg) (c : Client)
    → LegCoded fine
    → LegCoded (elim r as (λ _. Leg) [
      | overrun ↦ ended crashed
      | returned o ↦ elim o [
        | none ↦ ended unanswered
        | some code ↦ if is_ok code then fine else ended (fail code c)
      ]
    ])
dialled overrun fine c h code c' e = ground (arith, e)
dialled (returned none) fine c h code c' e = ground (arith, e)
dialled (returned (some x)) fine c h code c' e = let k = h code c' in ground (arith, e, k)

parsed :
    (u : Option Parts) (connect : Parts → Connected) (fine : Parts → Leg) (c : Client)
    → ((u : Parts) → LegCoded (fine u))
    → LegCoded (elim u as (λ _. Leg) [
      | none ↦ ended (fail url_invalid c)
      | some u ↦ elim (connect u) [
        | overrun ↦ ended crashed
        | returned o ↦ elim o [
          | none ↦ ended unanswered
          | some code ↦ if is_ok code then fine u else ended (fail code c)
        ]
      ]
    ])
parsed none connect fine c h = λ code c' e. ground (arith, e)
parsed (some u) connect fine c h = dialled (connect u) (fine u) c (h u)

-- The call of the function for a redirect.
resumed :
    (l : Leg) (rest : List ℕ → Client → Finished)
    → LegCoded l
    → ((url : List ℕ) (c : Client) → FinishedCoded (rest url c))
    → FinishedCoded (elim l as (λ _. Finished) [ ended f ↦ f | redirected url c ↦ rest url c ])
resumed (ended f) rest h k = λ code c e. h code c (ap ended e)
resumed (redirected url c) rest h k = k url c

module _ {P : Type 0} (parse_url : List ℕ → Option Parts) (start : P)
    (execute : P → List ℕ → List Event × Bool × P) where
  exchange-Coded :
      (t : Trip) (url : List ℕ) (u : Parts) (content : List ℕ) (header : Option (List ℕ))
      (c : Client)
      → LegCoded (exchange parse_url start execute t url u content header c)
  unfolding exchange
  exchange-Coded t url u content header c code c' e =
      let k =
        after_receive-Coded (receive execute t.rounds start t.stream c)
          (receive-Coded execute t.rounds start t.stream c) code c' in
      ground (arith, e, k)

  connection-Coded :
      (t : Trip) (url content : List ℕ) (header : Option (List ℕ)) (c : Client)
      → LegCoded (connection parse_url start execute t url content header c)
  unfolding connection
  connection-Coded t url content header c =
      parsed (parse_url url) (λ u. connect_host t.net (pos c.timeout) url u)
        (λ u. exchange parse_url start execute t url u content header c) c
        (λ u. exchange-Coded t url u content header c)

  -- Whatever happens, and however many redirects there are: the code that `http_internal_sync_request`
  -- returns is the error code of the client.
  pub internal_request-error_code :
      (ts : List Trip) (url content : List ℕ) (header : Option (List ℕ)) (c : Client) (code : Error)
      (c' : Client)
      → internal_request parse_url start execute ts url content header c ≡ done code c'
      → c'.error_code ≡ code
  unfolding internal_request
  internal_request-error_code [] url content header c code c' e = ground (arith, e)
  internal_request-error_code (t ∷ ts) url content header c code c' e =
      resumed (connection parse_url start execute t url content header (reset c))
        (λ url' d. internal_request parse_url start execute ts url' content header d)
        (connection-Coded t url content header (reset c))
        (λ url' d. internal_request-error_code ts url' content header d) code c' e
