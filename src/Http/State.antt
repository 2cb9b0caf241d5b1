-- ===== src/Http/State.antt =====
-- The client of httpclient/src/http.c. The repository declares `struct ft_http_client_t` in http.h and
-- never defines it, so its fields are those that the code uses. The socket itself is left out: its
-- answers are arguments.
use linux_c_code.Base.{ℕ, Bool, false, Option, none, List}
use linux_c_code.Base.Int.{ℤ, pos}
use linux_c_code.Http.Field.{Field}

-- `enum parser_statue_e`
pub data Statue : Type 0 where
  parsed_none parsed_field parsed_value parsed_body : Statue

-- `http_request_method_e`
pub data Method : Type 0 where
  get post head : Method

-- `enum http_error_e`, as far as the code of this build returns it.
pub data Error : Type 0 where
  ok out_memory parse_rep url_invalid url_invalid_proto url_invalid_host url_resolved_host : Error
  socket_create socket_set_opt socket_noblocking socket_connect socket_connect_timeout : Error
  socket_write socket_read : Error

pub record Client : Type 0 where
  pub error_code : Error
  pub status_code : ℕ
  pub timeout : ℕ
  pub method : Method
  pub download : Bool
  pub exit : Bool
  pub redirect : Bool
  pub redirect_url : Option (List ℕ)
  pub content_length : ℤ
  pub body : Option (List ℕ)
  pub body_len : ℕ
  pub header_field : Field
  pub header_value : Field
  pub statue : Statue
  pub filename : Option (List ℕ)
  -- What is written to the open file `pf`.
  pub file : Option (List ℕ)
  -- What a file that the request has closed holds.
  pub saved : Option (List ℕ)

abbrev pub no_field : Field
no_field = record { str = none; cur_size = 0; size = 0 }

-- `ft_http_new`: all bytes are zero.
unfoldable pub new : Client
new = record {
  error_code = ok;
  status_code = 0;
  timeout = 0;
  method = get;
  download = false;
  exit = false;
  redirect = false;
  redirect_url = none;
  content_length = pos 0;
  body = none;
  body_len = 0;
  header_field = no_field;
  header_value = no_field;
  statue = parsed_none;
  filename = none;
  file = none;
  saved = none;
}
