-- ===== src/Http/Descriptor.antt =====
-- The socket that a client of httpclient/src/http.c holds from one request to the next: where the code
-- opens it, where it closes it, and the release of the client. The rest of the client is in Http.State.
pub mod Paired
use linux_c_code.Base.{
  ℕ, zero, suc, ◌+◌, ◌≡◌, refl, Bool, true, false, ◌&&◌, not, Option, none, some, List, [], ◌∷◌,
  ◌++◌, ◌==◌, if◌then◌else◌, map, arith,
}
use linux_c_code.Base.Int.{ℤ, pos, negsuc, ◌==ℤ◌}
use linux_c_code.Http.State.{Client}

-- The members that hold memory.
pub data Member : Type 0 where
  body_member field_member value_member url_member filename_member : Member

-- What happens to the resources of a client.
pub data Effect : Type 0 where
  opened : ℕ → Effect
  closed : ℕ → Effect
  freed : Member → Effect
  file_closed : Effect
  client_freed : Effect

-- The macro `close_socket`: the new value of the variable, and what is closed. The standard descriptors
-- stay open, and `close` of another negative number closes nothing.
unfoldable pub close_socket : ℤ → ℤ × List Effect
close_socket (negsuc zero) = (negsuc 0, [])
close_socket (negsuc (suc n)) = (negsuc 0, [])
close_socket (pos n) =
    if not (n == 0) && not (n == 1) && not (n == 2) then (negsuc 0, closed n ∷ []) else (pos n, [])

-- The macros `free_member` and `close_file`.
unfoldable pub free_member : Member → Option (List ℕ) → List Effect
free_member m none = []
free_member m (some text) = freed m ∷ []

unfoldable pub close_file : Option (List ℕ) → List Effect
close_file none = []
close_file (some text) = file_closed ∷ []

-- The places that change `http->fd`: the start of a request, the call of `socket` in
-- `http_connect_host` with its answer (`none` is -1), and `ft_http_cancel_request`.
pub data Use : Type 0 where
  start : Use
  connect : (answer : Option ℕ) → Use
  cancel : Use

-- `socket`: the descriptor, and what it opens.
unfoldable pub socket : Option ℕ → ℤ × List Effect
socket none = (negsuc 0, [])
socket (some n) = (pos n, opened n ∷ [])

unfoldable pub cancel_request : ℤ → ℤ × List Effect
cancel_request fd = if fd ==ℤ negsuc 0 then (fd, []) else close_socket fd

unfoldable pub use_socket : Use → ℤ → ℤ × List Effect
use_socket start fd = close_socket fd
use_socket (connect answer) fd =
    let (closed_fd, before) = close_socket fd in
    let (new_fd, after) = socket answer in (new_fd, before ++ after)
use_socket cancel fd = cancel_request fd

unfoldable pub use_sockets : List Use → ℤ → ℤ × List Effect
use_sockets [] fd = (fd, [])
use_sockets (u ∷ us) fd =
    let (next, effects) = use_socket u fd in
    let (last, others) = use_sockets us next in (last, effects ++ others)

-- `ft_http_destroy`
unfoldable pub destroy_client : Option Client → ℤ → List Effect
destroy_client none fd = []
destroy_client (some c) fd =
    free_member body_member c.body
    ++ (free_member field_member c.header_field.str
        ++ (free_member value_member c.header_value.str
            ++ (free_member url_member c.redirect_url
                ++ (free_member filename_member c.filename
                    ++ ((close_socket fd).1 ++ (close_file c.file ++ client_freed ∷ []))))))
