-- ===== src/Http/Response/Sized.antt =====
-- The receive loop of httpclient/src/http.c for a response with a content length, from the round on
-- that reads straight into the body.
use linux_c_code.Base.{ℕ, ◌+◌, ◌-◌, ◌≤◌, ◌<◌, ◌≡◌, false, some, List, ◌++◌, length, take}
use linux_c_code.Base.Int.{pos}
use linux_c_code.Http.State.{Client, parsed_body, socket_read}
use linux_c_code.Http.Response.{Received, left, failed_with}

-- The body holds the text, and has room for `total` bytes and a terminator.
pub record Sized (total : ℕ) (text : List ℕ) (c : Client) : Type 0 where
  pub rest : List ℕ
  pub cells : c.body ≡ some (text ++ rest)
  pub used : c.body_len ≡ length text
  pub within : length text ≤ total
  pub room : length text + length rest ≡ total + 1

-- The client is reading the body of an ordinary request, with this content length.
pub record InBody (total : ℕ) (c : Client) : Type 0 where
  pub download : c.download ≡ false
  pub exit : c.exit ≡ false
  pub statue : c.statue ≡ parsed_body
  pub length_known : c.content_length ≡ pos total
  pub not_empty : 0 < total

-- How the loop ends for a response with a content length.
pub data SizedEnd (total : ℕ) (text stream : List ℕ) (c : Client) (r : Received) : Type 0 where
  grew :
      (c' : Client) (n : ℕ)
      → n ≤ total - length text
      → Sized total (text ++ take n stream) c'
      → c'.error_code ≡ c.error_code
      → r ≡ left c'
      → SizedEnd total text stream c r
  broke :
      (c' : Client)
      → c'.error_code ≡ socket_read
      → r ≡ failed_with socket_read c'
      → SizedEnd total text stream c r
