-- ===== src/Http/Sync.antt =====
-- A whole request of httpclient/src/http.c: `http_internal_sync_request`, and the two entry points
-- that call it. http_parser is a parameter, and so is every answer of the network.
pub mod Codes
pub mod Redirects
pub mod Success
use linux_c_code.Base.{
  ℕ, Bool, true, false, ◌&&◌, Option, none, some, List, [], ◌∷◌, ltb, if◌then◌else◌, take, drop,
}
use linux_c_code.Base.Int.{ℤ, pos, negsuc}
use linux_c_code.Http.Field.{write_at}
use linux_c_code.Http.State.{Client, Method, get, Error, ok, out_memory, url_invalid}
use linux_c_code.Http.Socket.{Reply}
use linux_c_code.Http.Request.{Url, request_pieces, send_all}
use linux_c_code.Http.Client.{reset}
use linux_c_code.Http.Connect.{
  Part, Parts, part_text, Network, Connected, overrun, returned, connect_host,
}
use linux_c_code.Http.Response.{
  Event, Machine, Received, left, failed_with, overwritten, waiting, receive,
}

-- What the network and the machine answer to one connection.
pub record Trip : Type 0 where
  pub net : Network
  pub sends : List (List Reply)
  pub rounds : List (List Reply × Machine)
  pub stream : List ℕ

-- How `http_internal_sync_request` ends.
pub data Finished : Type 0 where
  done : (code : Error) → Client → Finished
  -- A write outside of the memory.
  crashed : Finished
  -- The answers ran out.
  unanswered : Finished

-- How one connection ends: it ends the request, or the request starts again with another URL.
pub data Leg : Type 0 where
  ended : Finished → Leg
  redirected : (url : List ℕ) → Client → Leg

abbrev pub is_ok : Error → Bool
is_ok ok = true
is_ok _ = false

-- `return (http->error_code = code)`
abbrev pub fail : Error → Client → Finished
fail code c = done code (record c { error_code = code })

-- The parts of the URL that the request uses; without a host `http_connect_host` has failed.
unfoldable pub url_of : List ℕ → Parts → Url
url_of url u = record {
  host = (elim u.host [ none ↦ [] | some p ↦ part_text url p ]);
  path = (elim u.path [ none ↦ none | some p ↦ some (part_text url p) ]);
  query = (elim u.query [ none ↦ none | some p ↦ some (part_text url p) ]);
}

-- `fclose` of the downloaded file, if it is open.
unfoldable pub close_download : Client → Client
close_download c =
    if c.download
    then (elim c.file [ none ↦ c | some bytes ↦ record c { file = none; saved = some bytes } ])
    else c

-- The terminator behind the body; then the code is returned.
unfoldable pub terminate_body : Client → Finished
terminate_body c = elim c.body [
  | none ↦ done c.error_code c
  | some cells ↦
      if ltb 0 c.body_len
      then (elim (write_at c.body_len (0 ∷ []) cells) [
        | none ↦ crashed
        | some cells1 ↦ done c.error_code (record c { body = some cells1 })
      ])
      else done c.error_code c
]

-- From the end of the receive loop on.
unfoldable pub after_receive : Received → Leg
after_receive (left c) =
    if c.redirect
    then (elim c.redirect_url [ none ↦ ended crashed | some url ↦ redirected url c ])
    else ended (terminate_body (close_download c))
after_receive (failed_with code c) = ended (done code c)
after_receive overwritten = ended crashed
after_receive waiting = ended unanswered

module _ {P : Type 0} (parse_url : List ℕ → Option Parts) (start : P)
    (execute : P → List ℕ → List Event × Bool × P) where
  -- The request goes out, and the response comes in.
  unfoldable pub exchange :
      Trip → List ℕ → Parts → (content : List ℕ) → Option (List ℕ) → Client → Leg
  exchange t url u content header c =
      elim (send_all c.exit (pos c.timeout) (request_pieces c.method (url_of url u) header content)
        t.sends) [
          | none ↦ ended unanswered
          | some (code, sent) ↦
              if is_ok code
              then after_receive (receive execute t.rounds start t.stream c)
              else ended (fail code c)
        ]

  -- One connection, for a client that has been reset.
  unfoldable pub connection : Trip → List ℕ → (content : List ℕ) → Option (List ℕ) → Client → Leg
  connection t url content header c = elim (parse_url url) [
    | none ↦ ended (fail url_invalid c)
    | some u ↦ elim (connect_host t.net (pos c.timeout) url u) [
      | overrun ↦ ended crashed
      | returned r ↦ elim r [
        | none ↦ ended unanswered
        | some code ↦ if is_ok code then exchange t url u content header c else ended (fail code c)
      ]
    ]
  ]

  -- `http_internal_sync_request`, which calls itself for a redirect; one `Trip` for each connection.
  unfoldable pub internal_request :
      List Trip → List ℕ → (content : List ℕ) → Option (List ℕ) → Client → Finished
  internal_request [] url content header c = unanswered
  internal_request (t ∷ ts) url content header c =
      elim (connection t url content header (reset c)) [
        | ended f ↦ f
        | redirected url' c' ↦ internal_request ts url' content header c'
      ]

  -- `ft_http_sync_request` of a client that is not NULL: its result is the body of the client.
  unfoldable pub sync_request : List Trip → List ℕ → Method → Client → Finished
  sync_request ts url m c =
      elim (internal_request ts url [] none (record c { method = m; download = false })) [
        | done code c' ↦ done code (record c' { error_code = code })
        | crashed ↦ crashed
        | unanswered ↦ unanswered
      ]

  -- `ft_http_sync_download_file` of a client that is not NULL; `copied` tells whether `_strdup` finds
  -- memory.
  unfoldable pub download_file :
      List Trip → List ℕ → (filepath : Option (List ℕ)) → (copied : Bool) → Client → Finished
  download_file ts url none copied c =
      internal_request ts url [] none (record c { method = get; download = true; filename = none })
  download_file ts url (some name) false c =
      fail out_memory (record c { method = get; download = true; filename = none })
  download_file ts url (some name) true c =
      internal_request ts url [] none
        (record c { method = get; download = true; filename = some name })
