-- ===== src/Http/Request/Sent.antt =====
-- What has been sent when a request of httpclient/src/http.c is out, or fails.
use mathlib.Core.List.{append_assoc}
use linux_c_code.Base.{
  ℕ, ◌<◌, ◌≡◌, refl, sym, ap, ◌∙◌, false, some, List, [], ◌∷◌, ◌++◌, length, take, arith,
}
use linux_c_code.Base.Slices.{take-of_length_le}
use linux_c_code.Base.Int.{ℤ, pos, negsuc}
use linux_c_code.Http.State.{Error, ok, socket_write}
use linux_c_code.Http.Socket.{Reply, read_write}
use linux_c_code.Http.Request.{send_all}
use linux_c_code.Http.Parser.Header.{concat}

-- The answers let every piece out, and no piece is empty.
abbrev pub AllOut : ℤ → List (List ℕ) → List (List Reply) → Type 0
AllOut timeout [] rs = Unit
AllOut timeout (p ∷ ps) [] = ⊥
AllOut timeout (p ∷ ps) (r ∷ rs) =
    (0 < length p)
    × (read_write false timeout (length p) r
        ≡ some (record { result = pos (length p); moved = length p }))
    × AllOut timeout ps rs

-- The outcome of the pieces from `p` on, when `p` is out.
send_all-cons :
    (timeout : ℤ) (p : List ℕ) (ps : List (List ℕ)) (r : List Reply) (rs : List (List Reply))
    (code : Error) (sent : List ℕ)
    → 0 < length p
    → read_write false timeout (length p) r
      ≡ some (record { result = pos (length p); moved = length p })
    → send_all false timeout ps rs ≡ some (code, sent)
    → send_all false timeout (p ∷ ps) (r ∷ rs) ≡ some (code, p ++ sent)
unfolding send_all
send_all-cons timeout (b ∷ p) ps r rs code sent n e ih =
    let whole = take-of_length_le (length (b ∷ p)) (b ∷ p) (omega arith) in
    ground (arith, e, ih, whole)
send_all-cons timeout [] ps r rs code sent n e ih = absurd (omega arith)

send_all-nil : (timeout : ℤ) (rs : List (List Reply)) → send_all false timeout [] rs ≡ some (ok, [])
unfolding send_all
send_all-nil timeout rs = refl

send_all-fail :
    (timeout : ℤ) (p : List ℕ) (ps : List (List ℕ)) (r : List Reply) (rs : List (List Reply))
    (m : ℕ)
    → read_write false timeout (length p) r ≡ some (record { result = negsuc 0; moved = m })
    → send_all false timeout (p ∷ ps) (r ∷ rs) ≡ some (socket_write, take m p)
unfolding send_all
send_all-fail timeout p ps r rs m e = ground (arith, e)

-- If the answers let every piece out, the request ends well, and its bytes have been sent in order.
pub send_all-ok :
    (timeout : ℤ) (ps : List (List ℕ)) (rs : List (List Reply))
    → AllOut timeout ps rs
    → send_all false timeout ps rs ≡ some (ok, concat ps)
unfolding concat
send_all-ok timeout [] rs a = send_all-nil timeout rs
send_all-ok timeout (p ∷ ps) [] a = absurd a
send_all-ok timeout (p ∷ ps) (r ∷ rs) a =
    send_all-cons timeout p ps r rs ok (concat ps) a.0 a.1 (send_all-ok timeout ps rs a.2)

-- If the socket fails after the pieces `ps`, `m` bytes into the piece `p`, the request ends with
-- ERR_SOCKET_WRITE: exactly the bytes before that point have been sent, and no later piece is tried.
pub send_all-prefix :
    (timeout : ℤ) (ps : List (List ℕ)) (rs : List (List Reply)) (p : List ℕ) (r : List Reply)
    (qs : List (List ℕ)) (ss : List (List Reply)) (m : ℕ)
    → AllOut timeout ps rs
    → length ps ≡ length rs
    → read_write false timeout (length p) r ≡ some (record { result = negsuc 0; moved = m })
    → send_all false timeout (ps ++ (p ∷ qs)) (rs ++ (r ∷ ss))
      ≡ some (socket_write, concat ps ++ take m p)
unfolding concat
send_all-prefix timeout [] [] p r qs ss m a n e = send_all-fail timeout p qs r ss m e
send_all-prefix timeout [] (s ∷ rs) p r qs ss m a n e = absurd (omega arith)
send_all-prefix timeout (q ∷ ps) [] p r qs ss m a n e = absurd a
send_all-prefix timeout (q ∷ ps) (s ∷ rs) p r qs ss m a n e =
    send_all-cons timeout q (ps ++ (p ∷ qs)) s (rs ++ (r ∷ ss)) socket_write (concat ps ++ take m p)
      a.0 a.1 (send_all-prefix timeout ps rs p r qs ss m a.2 (omega arith) e)
    ∙ ap (λ x. some (socket_write, x)) (sym (append_assoc q (concat ps) (take m p)))
