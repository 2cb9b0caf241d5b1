-- ===== src/Http/Descriptor/Paired.antt =====
-- Each socket of a client of httpclient/src/http.c is closed once, and in time.
use linux_c_code.Base.{
  ℕ, ◌≤◌, ◌≡◌, refl, ◌∙◌, Bool, true, false, ◌&&◌, Option, none, some, List, [], ◌∷◌, ◌++◌, ◌==◌,
  leb, leb→le, arith, ◌⊎◌, ap, inl, inr,
}
use mathlib.Core.List.{append_assoc}
use linux_c_code.Base.Int.{ℤ, pos, negsuc}
use linux_c_code.Http.State.{Client}
use linux_c_code.Http.Descriptor.{
  Effect, body_member, field_member, value_member, url_member, filename_member, opened, closed,
  freed, file_closed, client_freed, Member, close_socket, free_member, close_file, Use, start,
  connect, cancel, socket, cancel_request, use_socket, use_sockets, destroy_client,
}

-- A socket is opened when none is open, only the open one is closed, and none is open when the client is
-- freed nor at the end. The first argument is the open one.
unfoldable pub paired : Option ℕ → List Effect → Bool
paired none [] = true
paired (some m) [] = false
paired none (opened n ∷ es) = paired (some n) es
paired (some m) (opened n ∷ es) = false
paired none (closed n ∷ es) = false
paired (some m) (closed n ∷ es) = m == n && paired none es
paired h (freed m ∷ es) = paired h es
paired h (file_closed ∷ es) = paired h es
paired none (client_freed ∷ es) = paired none es
paired (some m) (client_freed ∷ es) = false

-- The kernel gives no socket the number of a standard descriptor.
unfoldable pub above_standard : Use → Bool
above_standard start = true
above_standard cancel = true
above_standard (connect none) = true
above_standard (connect (some n)) = leb 3 n

unfoldable pub all_above : List Use → Bool
all_above [] = true
all_above (u ∷ us) = above_standard u && all_above us

-- What the variable says of the open socket. A new client has 0 in it.
abbrev Holds : ℤ → Option ℕ → Type 0
Holds fd none = (fd ≡ negsuc 0) ⊎ (fd ≡ pos 0)
Holds fd (some n) = (fd ≡ pos n) × (3 ≤ n)

close-holding : (n : ℕ) → 3 ≤ n → close_socket (pos n) ≡ (negsuc 0, closed n ∷ [])
unfolding close_socket
close-holding n h = ground (arith, h)

closed-paired : (n : ℕ) (rest : List Effect) → paired (some n) (closed n ∷ rest) ≡ paired none rest
unfolding paired
closed-paired n rest = ground arith

-- An operation leaves the variable right, and its effects keep the pairs.
abbrev Follows : Option ℕ → ℤ × List Effect → Option ℕ → Type 0
Follows h (next, effects) after =
    Holds next after × ((rest : List Effect) → paired h (effects ++ rest) ≡ paired after rest)

close_socket-Follows : (fd : ℤ) (h : Option ℕ) → Holds fd h → Follows h (close_socket fd) none
unfolding close_socket
close_socket-Follows fd none (inl e) = rw e (inl refl, λ rest. refl)
close_socket-Follows fd none (inr e) = rw e (inr refl, λ rest. refl)
close_socket-Follows fd (some n) (e, big) =
    rw (e, close-holding n big) (inl refl, λ rest. closed-paired n rest)

cancel-open : (n : ℕ) → cancel_request (pos n) ≡ close_socket (pos n)
unfolding cancel_request
cancel-open n = ground arith

cancel_request-Follows :
    (fd : ℤ) (h : Option ℕ) → Holds fd h → (after : Option ℕ) × Follows h (cancel_request fd) after
unfolding cancel_request close_socket
cancel_request-Follows fd none (inl e) = (none, rw e (inl refl, λ rest. refl))
cancel_request-Follows fd none (inr e) = (none, rw e (close_socket-Follows (pos 0) none (inr refl)))
cancel_request-Follows fd (some n) (e, big) =
    (none, rw (e, cancel-open n) (close_socket-Follows (pos n) (some n) (refl, big)))

socket-Follows :
    (answer : Option ℕ)
    → above_standard (connect answer) ≡ true
    → Follows none (socket answer) answer
unfolding socket above_standard paired
socket-Follows none e = (inl refl, λ rest. refl)
socket-Follows (some n) e = ((refl, leb→le 3 n e), λ rest. refl)

Follows-both :
    (h mid after : Option ℕ) (first second : ℤ × List Effect)
    → Follows h first mid
    → Follows mid second after
    → Follows h (second.0, first.1 ++ second.1) after
Follows-both h mid after (fd, es) (next, fs) (held, keeps) (holds, follows) =
    (holds, λ rest. ap (paired h) (append_assoc es fs rest) ∙ keeps (fs ++ rest) ∙ follows rest)

use_socket-Follows :
    (u : Use) (fd : ℤ) (h : Option ℕ)
    → above_standard u ≡ true
    → Holds fd h
    → (after : Option ℕ) × Follows h (use_socket u fd) after
unfolding use_socket
use_socket-Follows start fd h e held = (none, close_socket-Follows fd h held)
use_socket-Follows cancel fd h e held = cancel_request-Follows fd h held
use_socket-Follows (connect answer) fd h e held = (
  answer,
  Follows-both h none answer (close_socket fd) (socket answer) (close_socket-Follows fd h held)
      (socket-Follows answer e),
)

use_sockets-Follows :
    (us : List Use) (fd : ℤ) (h : Option ℕ)
    → all_above us ≡ true
    → Holds fd h
    → (after : Option ℕ) × Follows h (use_sockets us fd) after
unfolding use_sockets all_above
use_sockets-Follows [] fd h e held = (h, (held, λ rest. refl))
use_sockets-Follows (u ∷ us) fd h e held =
    let (mid, first) = use_socket-Follows u fd h (ground (arith, e)) held in
    let (after, second) =
      use_sockets-Follows us (use_socket u fd).0 mid (ground (arith, e)) first.0 in
    (
      after,
      Follows-both h mid after (use_socket u fd) (use_sockets us (use_socket u fd).0) first second,
    )

paired-free_member :
    (h : Option ℕ) (m : Member) (text : Option (List ℕ)) (rest : List Effect)
    → paired h (free_member m text ++ rest) ≡ paired h rest
unfolding paired free_member
paired-free_member none m none rest = refl
paired-free_member none m (some text) rest = refl
paired-free_member (some n) m none rest = refl
paired-free_member (some n) m (some text) rest = refl

paired-close_file :
    (text : Option (List ℕ)) → paired none (close_file text ++ client_freed ∷ []) ≡ true
unfolding paired close_file
paired-close_file none = refl
paired-close_file (some text) = refl

destroy_client-paired :
    (c : Client) (fd : ℤ) (h : Option ℕ) → Holds fd h → paired h (destroy_client (some c) fd) ≡ true
unfolding destroy_client
destroy_client-paired c fd h held =
    paired-free_member h body_member c.body _
    ∙ paired-free_member h field_member c.header_field.str _
    ∙ paired-free_member h value_member c.header_value.str _
    ∙ paired-free_member h url_member c.redirect_url _
    ∙ paired-free_member h filename_member c.filename _
    ∙ (close_socket-Follows fd h held).1 _
    ∙ paired-close_file c.file

-- From a new client, however requests start, sockets are opened or refused and requests are cancelled,
-- as long as the kernel gives no socket the number of a standard descriptor: with
-- `ft_http_destroy` at the end, each socket is closed exactly once, before the next one is opened and
-- before the client is freed, and nothing else is closed as a socket.
pub use_sockets-paired :
    (us : List Use) (c : Client)
    → all_above us ≡ true
    → let used = use_sockets us (pos 0) in
      paired none (used.1 ++ destroy_client (some c) used.0) ≡ true
use_sockets-paired us c e =
    let (after, (held, follows)) = use_sockets-Follows us (pos 0) none e (inr refl) in
    follows (destroy_client (some c) (use_sockets us (pos 0)).0)
    ∙ destroy_client-paired c (use_sockets us (pos 0)).0 after held
