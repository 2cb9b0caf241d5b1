-- ===== src/Http/Request.antt =====
-- The request that `http_internal_sync_request` of httpclient/src/http.c sends, piece by piece.
pub mod Sent
use linux_c_code.Base.Decimal.{decimal}
use linux_c_code.Base.{
  ℕ, zero, suc, ◌+◌, ◌/◌, ◌%◌, Bool, true, false, Option, none, some, List, [], ◌∷◌, ◌++◌, length,
  take,
}
use linux_c_code.Base.Int.{ℤ, pos}
use linux_c_code.Http.State.{Method, get, post, head, Error, ok, socket_write}
use linux_c_code.Http.Socket.{Reply, read_write}

-- The parts of the URL that http_parser finds and that the request uses.
pub record Url : Type 0 where
  pub host : List ℕ
  pub path : Option (List ℕ)
  pub query : Option (List ℕ)

abbrev pub get_str : List ℕ
get_str = 71 ∷ 69 ∷ 84 ∷ 32 ∷ []

abbrev pub post_str : List ℕ
post_str = 80 ∷ 79 ∷ 83 ∷ 84 ∷ 32 ∷ []

abbrev pub slash : List ℕ
slash = 47 ∷ []

abbrev pub question : List ℕ
question = 63 ∷ []

abbrev pub version_host : List ℕ
version_host = 32 ∷ 72 ∷ 84 ∷ 84 ∷ 80 ∷ 47 ∷ 49 ∷ 46 ∷ 49 ∷ 13 ∷ 10 ∷ 72 ∷ 111 ∷ 115 ∷ 116 ∷ 58 ∷ []

-- CRLF, CONNECT_STR, ACCEPT_STR and DEFAULT_USER_AGENT_STR.
abbrev pub fixed_headers : List ℕ
fixed_headers =
    13 ∷ 10 ∷ 67 ∷ 111 ∷ 110 ∷ 110 ∷ 101 ∷ 99 ∷ 116 ∷ 105 ∷ 111 ∷ 110 ∷ 58 ∷ 32 ∷ 99 ∷ 108 ∷ 111
    ∷ 115 ∷ 101 ∷ 13 ∷ 10 ∷ 65 ∷ 99 ∷ 99 ∷ 101 ∷ 112 ∷ 116 ∷ 58 ∷ 32 ∷ 42 ∷ 47 ∷ 42 ∷ 13 ∷ 10 ∷ 85
    ∷ 115 ∷ 101 ∷ 114 ∷ 45 ∷ 65 ∷ 103 ∷ 101 ∷ 110 ∷ 116 ∷ 58 ∷ 32 ∷ 77 ∷ 111 ∷ 122 ∷ 105 ∷ 108 ∷ 108
    ∷ 97 ∷ 47 ∷ 53 ∷ 46 ∷ 48 ∷ 32 ∷ 40 ∷ 87 ∷ 105 ∷ 110 ∷ 100 ∷ 111 ∷ 119 ∷ 115 ∷ 32 ∷ 78 ∷ 84 ∷ 32
    ∷ 54 ∷ 46 ∷ 49 ∷ 59 ∷ 32 ∷ 87 ∷ 79 ∷ 87 ∷ 54 ∷ 52 ∷ 59 ∷ 32 ∷ 114 ∷ 118 ∷ 58 ∷ 50 ∷ 57 ∷ 46 ∷ 48
    ∷ 41 ∷ 32 ∷ 71 ∷ 101 ∷ 99 ∷ 107 ∷ 111 ∷ 47 ∷ 50 ∷ 48 ∷ 49 ∷ 48 ∷ 48 ∷ 49 ∷ 48 ∷ 49 ∷ 32 ∷ 70
    ∷ 105 ∷ 114 ∷ 101 ∷ 102 ∷ 111 ∷ 120 ∷ 47 ∷ 50 ∷ 57 ∷ 46 ∷ 48 ∷ 13 ∷ 10 ∷ []

-- CONTENT_TYPE_STR and CONTENT_LENGTH_STR with its colon.
abbrev pub post_headers : List ℕ
post_headers =
    67 ∷ 111 ∷ 110 ∷ 116 ∷ 101 ∷ 110 ∷ 116 ∷ 45 ∷ 84 ∷ 121 ∷ 112 ∷ 101 ∷ 58 ∷ 97 ∷ 112 ∷ 112 ∷ 108
    ∷ 105 ∷ 99 ∷ 97 ∷ 116 ∷ 105 ∷ 111 ∷ 110 ∷ 47 ∷ 120 ∷ 45 ∷ 119 ∷ 119 ∷ 119 ∷ 45 ∷ 102 ∷ 111 ∷ 114
    ∷ 109 ∷ 45 ∷ 117 ∷ 114 ∷ 108 ∷ 101 ∷ 110 ∷ 99 ∷ 111 ∷ 100 ∷ 101 ∷ 100 ∷ 13 ∷ 10 ∷ 67 ∷ 111 ∷ 110
    ∷ 116 ∷ 101 ∷ 110 ∷ 116 ∷ 45 ∷ 76 ∷ 101 ∷ 110 ∷ 103 ∷ 116 ∷ 104 ∷ 58 ∷ []

abbrev pub crlf : List ℕ
crlf = 13 ∷ 10 ∷ []

unfoldable pub method_pieces : Method → List (List ℕ)
method_pieces get = get_str ∷ []
method_pieces post = post_str ∷ []
method_pieces head = []

unfoldable pub target_pieces : Url → List (List ℕ)
target_pieces u =
    (elim u.path [ none ↦ slash ∷ [] | some p ↦ p ∷ [] ])
    ++ (elim u.query [ none ↦ [] | some q ↦ question ∷ q ∷ [] ])

-- The headers that the caller adds.
unfoldable pub header_pieces : Option (List ℕ) → List (List ℕ)
header_pieces none = []
header_pieces (some h) = h ∷ []

-- The headers for the data of a request that has some.
unfoldable pub length_pieces : List ℕ → List (List ℕ)
length_pieces [] = []
length_pieces (b ∷ bs) = (post_headers ++ (decimal (length (b ∷ bs)) ++ crlf)) ∷ []

unfoldable pub data_pieces : List ℕ → List (List ℕ)
data_pieces [] = []
data_pieces (b ∷ bs) = (b ∷ bs) ∷ []

-- All calls of `http_read_write` for a request, in their order. `data` is empty for no `post_data`.
unfoldable pub request_pieces : Method → Url → Option (List ℕ) → List ℕ → List (List ℕ)
request_pieces m u header content =
    method_pieces m
    ++ (target_pieces u
        ++ (version_host
            ∷ u.host
            ∷ fixed_headers
            ∷ (header_pieces header ++ (length_pieces content ++ (crlf ∷ data_pieces content)))))

abbrev pub is_positive : ℤ → Bool
is_positive (pos (suc n)) = true
is_positive _ = false

-- The pieces with CHECK after each, with the kernel's answers for each: how it ends and what has been
-- sent. A result that is not positive ends the request. `none`: the answers ran out.
unfoldable pub send_all :
    (exit : Bool) → (timeout : ℤ) → List (List ℕ) → List (List Reply) → Option (Error × List ℕ)
send_all exit timeout [] rs = some (ok, [])
send_all exit timeout (p ∷ ps) [] = none
send_all exit timeout (p ∷ ps) (r ∷ rs) =
    let rest = send_all exit timeout ps rs in
    elim (read_write exit timeout (length p) r) [
      | none ↦ none
      | some e ↦ elim (is_positive e.result) [
        | false ↦ some (socket_write, take e.moved p)
        | true ↦ elim rest [ none ↦ none | some (code, sent) ↦ some (code, take e.moved p ++ sent) ]
      ]
    ]
