-- ===== src/Http/Connect.antt =====
-- `http_connect_host` of httpclient/src/http.c: the port and the host of a URL, the new socket, and
-- the loop of `connect`. The resolver and the socket calls are arguments.
pub mod Dialing
pub mod Hosts
use linux_c_code.Base.{
  ℕ, ◌+◌, ◌-◌, ◌/◌, ◌%◌, ◌^◌, Bool, true, false, ◌&&◌, ◌||◌, Option, none, some, List, [], ◌∷◌, leb,
  ◌==◌, if◌then◌else◌, length, take, drop,
}
use linux_c_code.Base.Int.{ℤ, pos, negsuc}
use linux_c_code.Http.Field.{fill, write_at}
use linux_c_code.Http.State.{
  Error, ok, url_invalid_proto, url_invalid_host, url_resolved_host, socket_create, socket_set_opt,
  socket_noblocking, socket_connect, socket_connect_timeout,
}
use linux_c_code.Http.Parser.{c_string, same_name, atol}
use linux_c_code.Http.Socket.{Wait, socket_select, eintr, einprogress, ewouldblock}

-- A part of the URL: where it starts, and its length.
pub record Part : Type 0 where
  pub off : ℕ
  pub len : ℕ

-- `struct http_parser_url`: the parts that are there.
pub record Parts : Type 0 where
  pub schema : Option Part
  pub host : Option Part
  pub port : Option Part
  pub path : Option Part
  pub query : Option Part

abbrev pub part_text : List ℕ → Part → List ℕ
part_text url p = take p.len (drop p.off url)

-- "http://"
abbrev pub http_schema : List ℕ
http_schema = 104 ∷ 116 ∷ 116 ∷ 112 ∷ 58 ∷ 47 ∷ 47 ∷ []

-- Whether the schema, if there is one, is "http://", in any case of letters.
unfoldable pub schema_fine : List ℕ → Option Part → Bool
schema_fine url none = true
schema_fine url (some p) = same_name http_schema (take 7 (drop p.off url))

-- A conversion of an `int` to `unsigned short`.
abbrev pub to_port : ℤ → ℕ
to_port (pos n) = n % 2 ^ 16
to_port (negsuc n) = 2 ^ 16 - 1 - n % 2 ^ 16

-- The port: 80, or what `atoi` reads in the URL.
unfoldable pub port_of : List ℕ → Option Part → ℕ
port_of url none = 80
port_of url (some p) = to_port (atol (drop p.off url))

-- What one call of `connect` answers: 0, or an error with the answers of `select` after it.
pub data Dial : Type 0 where
  joined : Dial
  refused : (errno : ℕ) (waits : List Wait) → Dial

abbrev pub ealready : ℕ
ealready = 114

-- The connection is under way.
abbrev pub pending : ℕ → Bool
pending errno = errno == einprogress || (errno == ewouldblock || errno == ealready)

-- The result when the connection is under way, by what `socket_select` answers.
unfoldable pub after_wait : Option Bool → Option Error
after_wait none = none
after_wait (some true) = some ok
after_wait (some false) = some socket_connect_timeout

-- The loop of `connect`. `none`: the answers ran out.
unfoldable pub connect_loop : (timeout : ℤ) → List Dial → Option Error
connect_loop timeout [] = none
connect_loop timeout (joined ∷ ds) = connect_loop timeout ds
connect_loop timeout (refused errno ws ∷ ds) =
    let rest = connect_loop timeout ds in
    if errno == eintr
    then rest
    else (if pending errno then after_wait (socket_select timeout ws) else some socket_connect)

abbrev pub o_nonblock : ℕ
o_nonblock = 2_048

-- `socket_noblocking(fd, 1)`: whether it returns 0. `getfl` is what F_GETFL answers, and `setfl`
-- whether F_SETFL takes the flags.
unfoldable pub socket_noblocking_on : (getfl : Option ℕ) → (setfl : ℕ → Bool) → Bool
socket_noblocking_on none setfl = false
socket_noblocking_on (some flags) setfl =
    setfl (if (flags / o_nonblock) % 2 == 0 then flags + o_nonblock else flags)

-- What the resolver and the kernel answer to `http_connect_host`.
pub record Network : Type 0 where
  -- `inet_addr`
  pub inet_addr : List ℕ → ℕ
  -- The first address of `gethostbyname`, if it is found and of AF_INET.
  pub gethostbyname : List ℕ → Option ℕ
  pub socket : Bool
  pub linger : Bool
  pub getfl : Option ℕ
  pub setfl : ℕ → Bool
  -- `connect` to an address and a port.
  pub dials : (address port : ℕ) → List Dial

abbrev pub inaddr_none : ℕ
inaddr_none = 4_294_967_295

abbrev pub first_is_digit : List ℕ → Bool
first_is_digit [] = false
first_is_digit (b ∷ bs) = leb 48 b && leb b 57

-- The address of the bytes in `host`; `none` is ERR_URL_RESOLVED_HOST.
unfoldable pub resolve : Network → List ℕ → Option ℕ
resolve net name =
    elim (if first_is_digit name then some (net.inet_addr name) else net.gethostbyname name) [
      | none ↦ none
      | some address ↦ if address == inaddr_none then none else some address
    ]

-- The calls from `socket` on.
unfoldable pub open_socket : Network → (timeout : ℤ) → (address port : ℕ) → Option Error
open_socket net timeout address port =
    if net.socket
    then (if net.linger
        then (if socket_noblocking_on net.getfl net.setfl
            then connect_loop timeout (net.dials address port)
            else some socket_noblocking)
        else some socket_set_opt)
    else some socket_create

-- How `http_connect_host` ends.
pub data Connected : Type 0 where
  -- The host is copied past the end of `host`.
  overrun : Connected
  -- It returns; `none`: the answers of `connect` ran out.
  returned : Option Error → Connected

-- From the `memcpy` of the host on.
unfoldable pub connect_name : Network → (timeout : ℤ) → (port : ℕ) → List ℕ → Connected
connect_name net timeout port host = elim (write_at 0 host (fill 256 (λ k. 0))) [
  | none ↦ overrun
  | some cells ↦ elim (resolve net (c_string cells)) [
    | none ↦ returned (some url_resolved_host)
    | some address ↦ returned (open_socket net timeout address port)
  ]
]

-- `http_connect_host`
unfoldable pub connect_host : Network → (timeout : ℤ) → List ℕ → Parts → Connected
connect_host net timeout url u =
    if schema_fine url u.schema
    then (elim u.host [
      | none ↦ returned (some url_invalid_host)
      | some p ↦ connect_name net timeout (port_of url u.port) (part_text url p)
    ])
    else returned (some url_invalid_proto)
