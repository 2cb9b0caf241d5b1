-- ===== src/Http/Tests/Sockets.antt =====
-- The sockets of a client of httpclient/src/http.c over some requests.
use linux_c_code.Base.{◌≡◌, refl, true, none, some, List, [], ◌∷◌, ◌++◌}
use linux_c_code.Base.Int.{pos, negsuc}
use linux_c_code.Http.State.{new}
use linux_c_code.Http.Descriptor.{
  opened, Use, start, connect, cancel, close_socket, socket, use_socket, use_sockets,
  destroy_client,
}
use linux_c_code.Http.Descriptor.Paired.{paired, all_above, above_standard, use_sockets-paired}

-- A redirect, a refused socket, a request that is cancelled, and one more.
abbrev uses_example : List Use
uses_example =
    start
    ∷ connect (some 5)
    ∷ start
    ∷ connect (some 5)
    ∷ start
    ∷ connect none
    ∷ connect (some 6)
    ∷ cancel
    ∷ start
    ∷ connect (some 7)
    ∷ []

use_sockets-paired_example :
    paired none (
      (use_sockets uses_example (pos 0)).1
      ++ destroy_client (some new) (use_sockets uses_example (pos 0)).0)
    ≡ true
unfolding all_above above_standard
use_sockets-paired_example = use_sockets-paired uses_example new refl

-- A socket with the number of a standard descriptor is not closed.
standard_kept :
    (use_sockets (connect (some 0) ∷ connect (some 5) ∷ []) (negsuc 0)).1 ≡ opened 0 ∷ opened 5 ∷ []
unfolding use_sockets use_socket close_socket socket
standard_kept = refl
