-- ===== src/Http/Response/Whole.antt =====
-- The receive loop of httpclient/src/http.c for a response without a content length.
use mathlib.Core.List.{append_assoc, append-nil}
use mathlib.Core.Path.{subst}
use linux_c_code.Base.{
  ℕ, suc, ◌+◌, ◌≡◌, refl, sym, ap, ap₂, ◌∙◌, Bool, false, Option, none, some, List, [], ◌∷◌, ◌++◌,
  take, drop, length, arith,
}
use linux_c_code.Base.Slices.{take_add}
use linux_c_code.Base.Int.{pos}
use linux_c_code.Http.State.{Client}
use linux_c_code.Http.Field.{write_at}
use linux_c_code.Http.Socket.{Reply, read_write}
use linux_c_code.Http.Parser.{
  Answer, proceed, corrupt, copy_body, on_body_cb, body_memory, positive,
}
use linux_c_code.Http.Parser.Body.{HasBody, NoBody, on_body_cb-first, on_body_cb-next}
use linux_c_code.Http.Response.{
  Event, body, Machine, body_cb, call_back, run_events, recv_buf_size, Received, left, direct_total,
  parsed_end, buffered, receive,
}

-- The text has come so far: no piece of it, or all in the buffer.
pub data Carries (c : Client) (text : List ℕ) : Type 0 where
  nothing : NoBody c → text ≡ [] → Carries c text
  something : HasBody c text → Carries c text

-- The callback for the body changes the body only.
abbrev pub BodyOnly : (c c' : Client) → Type 0
BodyOnly c c' = c' ≡ record c { body = c'.body; body_len = c'.body_len }

abbrev client_of : Client → Answer → Client
client_of d (proceed c) = c
client_of d _ = d

copied :
    (c c' : Client) (n : ℕ) (cells : Option (List ℕ))
    → (elim cells as (λ _. Answer) [
      | none ↦ corrupt
      | some cells1 ↦ proceed (record c { body = some cells1; body_len = c.body_len + n })
    ])
      ≡ proceed c'
    → BodyOnly c c'
copied c c' n none e = absurd (ground (arith, e))
copied c c' n (some cells1) e = subst (BodyOnly c) (ap (client_of c) e) refl

on_body_cb-BodyOnly :
    (g : ℕ → ℕ) (bytes : List ℕ) (c c' : Client)
    → on_body_cb (some g) bytes c ≡ proceed c'
    → BodyOnly c c'
unfolding on_body_cb copy_body
on_body_cb-BodyOnly g bytes c c' e =
    copied c c' (length bytes) (write_at c.body_len bytes (body_memory g (length bytes) c)) e

carry :
    (g : ℕ → ℕ) (bytes : List ℕ) (c : Client) (text : List ℕ)
    → positive c.content_length ≡ none
    → Carries c text
    → (c' : Client) × (on_body_cb (some g) bytes c ≡ proceed c') × HasBody c' (text ++ bytes)
carry g bytes c text h (nothing hn e) =
    let (c', q, r, same) = on_body_cb-first g c bytes h hn in
    (c', q, subst (λ t. HasBody c' (t ++ bytes)) (sym e) r)
carry g bytes c text h (something has) =
    let (c', q, r, same) = on_body_cb-next g c text bytes h has in (c', q, r)

-- What a response without a content length needs of the client: an ordinary request, no redirect.
pub record Plain (timeout : ℕ) (c : Client) : Type 0 where
  pub download : c.download ≡ false
  pub exit : c.exit ≡ false
  pub timeout_same : c.timeout ≡ timeout
  pub redirect : c.redirect ≡ false
  pub no_length : positive c.content_length ≡ none

keep_Plain : (t : ℕ) (c c' : Client) → BodyOnly c c' → Plain t c → Plain t c'
keep_Plain t c c' b h = subst (Plain t) (sym b) (record {
  download = h.download;
  exit = h.exit;
  timeout_same = h.timeout_same;
  redirect = h.redirect;
  no_length = h.no_length;
})

one_event :
    (m : Machine) (g : ℕ → ℕ) (bytes : List ℕ) (c c' : Client)
    → m.alloc ≡ some g
    → c.download ≡ false
    → on_body_cb (some g) bytes c ≡ proceed c'
    → run_events m (body bytes ∷ []) c ≡ proceed c'
unfolding run_events call_back body_cb
one_event m g bytes c c' a d e = ground (arith, a, d, e)

-- Each call of `http_read_write` moves so many bytes and one more, with memory at hand, and the last
-- one finds that the other side has closed.
abbrev pub Reads : ℕ → List (List Reply × Machine) → List ℕ → Type 0
Reads t [] ns = ⊥
Reads t ((rs, m) ∷ rounds) [] =
    read_write false (pos t) recv_buf_size rs ≡ some (record { result = pos 0; moved = 0 })
Reads t ((rs, m) ∷ rounds) (n ∷ ns) =
    (read_write false (pos t) recv_buf_size rs
      ≡ some (record { result = pos (suc n); moved = suc n }))
    × ((g : ℕ → ℕ) × (m.alloc ≡ some g))
    × Reads t rounds ns

-- All bytes of these calls.
unfoldable pub total : List ℕ → ℕ
total [] = 0
total (n ∷ ns) = suc n + total ns

not_direct : (c : Client) → positive c.content_length ≡ none → direct_total c ≡ none
unfolding direct_total
not_direct c h = ground (arith, h)

same_read :
    (t : ℕ) (n : ℕ) (rs : List Reply) (c : Client)
    → Plain t c
    → read_write c.exit (pos c.timeout) n rs ≡ read_write false (pos t) n rs
same_read t n rs c h = ap₂ (λ x s. read_write x (pos s) n rs) h.exit h.timeout_same

goes_on :
    (more : Client → Received) (c : Client)
    → c.redirect ≡ false
    → parsed_end false more (proceed c) ≡ more c
unfolding parsed_end
goes_on more c h = ground (arith, h)

module _ {P : Type 0} (execute : P → List ℕ → List Event × Bool × P) where
  -- The parser hands over all bytes as the body.
  abbrev pub PassesBody : P → Type 0
  PassesBody p = (bytes : List ℕ) → execute p bytes ≡ (body bytes ∷ [], false, p)

  last_round :
      (p : P) (rs : List Reply) (m : Machine) (rounds : List (List Reply × Machine))
      (stream : List ℕ) (t : ℕ) (c : Client)
      → Plain t c
      → read_write false (pos t) recv_buf_size rs ≡ some (record { result = pos 0; moved = 0 })
      → receive execute ((rs, m) ∷ rounds) p stream c ≡ left c
  unfolding receive buffered
  last_round p rs m rounds stream t c h e =
      let d = not_direct c h.no_length in
      let e' = same_read t recv_buf_size rs c h ∙ e in ground (arith, d, e')

  -- A round that reads, by what the parser makes of the bytes.
  read_round :
      (p : P) (rs : List Reply) (m : Machine) (rounds : List (List Reply × Machine)) (n : ℕ)
      (stream : List ℕ) (t : ℕ) (c : Client)
      → Plain t c
      → read_write false (pos t) recv_buf_size rs
        ≡ some (record { result = pos (suc n); moved = suc n })
      → receive execute ((rs, m) ∷ rounds) p stream c ≡ (
          let (events, error, p') = execute p (take (suc n) stream) in
          parsed_end error
            (λ c'. receive execute rounds p' (drop (suc n) stream) c')
            (run_events m events c))
  unfolding receive buffered
  read_round p rs m rounds n stream t c h e =
      let d = not_direct c h.no_length in
      let e' = same_read t recv_buf_size rs c h ∙ e in ground (arith, d, e')

  -- A round whose bytes the parser takes, and whose callbacks all return 0.
  pub taken_round :
      (p p' : P) (events : List Event) (rs : List Reply) (m : Machine)
      (rounds : List (List Reply × Machine)) (n : ℕ) (stream : List ℕ) (t : ℕ) (c c' : Client)
      → execute p (take (suc n) stream) ≡ (events, false, p')
      → Plain t c
      → Plain t c'
      → read_write false (pos t) recv_buf_size rs
        ≡ some (record { result = pos (suc n); moved = suc n })
      → run_events m events c ≡ proceed c'
      → receive execute ((rs, m) ∷ rounds) p stream c
        ≡ receive execute rounds p' (drop (suc n) stream) c'
  taken_round p p' events rs m rounds n stream t c c' b h h' e r =
      read_round p rs m rounds n stream t c h e
      ∙ ap
          (λ (x : List Event × Bool × P).
            parsed_end x.1 (λ d. receive execute rounds x.2 (drop (suc n) stream) d)
              (run_events m x.0 c))
          b
      ∙ ap (parsed_end false (λ d. receive execute rounds p' (drop (suc n) stream) d)) r
      ∙ goes_on (λ d. receive execute rounds p' (drop (suc n) stream) d) c' h'.redirect

  pub receive-Carries :
      (rounds : List (List Reply × Machine)) (ns : List ℕ) (p : P) (stream : List ℕ) (t : ℕ)
      (c : Client) (text : List ℕ)
      → PassesBody p
      → Plain t c
      → Carries c text
      → Reads t rounds ns
      → (c' : Client) × (receive execute rounds p stream c ≡ left c')
        × Carries c' (text ++ take (total ns) stream)
        × (c'.error_code ≡ c.error_code)
        × Plain t c'
  unfolding total
  receive-Carries [] ns p stream t c text b h k r = absurd r
  receive-Carries ((rs, m) ∷ rounds) [] p stream t c text b h k r = (
    c,
    last_round p rs m rounds stream t c h r,
    subst (Carries c) (sym (append-nil text)) k,
    refl,
    h,
  )
  receive-Carries ((rs, m) ∷ rounds) (n ∷ ns) p stream t c text b h k (e, (g, a), r) =
      let bytes = take (suc n) stream in
      let (c1, q, has) = carry g bytes c text h.no_length k in
      let only = on_body_cb-BodyOnly g bytes c c1 q in
      let h1 = keep_Plain t c c1 only h in
      let (c', q', k', same, plain) =
        receive-Carries rounds ns p (drop (suc n) stream) t c1 (text ++ bytes) b h1 (something has)
          r in
      (
        c',
        taken_round p p (body bytes ∷ []) rs m rounds n stream t c c1 (b bytes) h h1 e
              (one_event m g bytes c c1 a h.download q)
            ∙ q',
        subst (Carries c')
            (append_assoc text bytes (take (total ns) (drop (suc n) stream))
              ∙ ap (λ l. text ++ l) (sym (take_add (suc n) (total ns) stream)))
            k',
        same ∙ ap (λ d. d.error_code) only,
        plain,
      )

  -- Without a content length, for a client that has not been told to exit, does not write to a file and
  -- is not redirected, when http_parser hands over all bytes that follow as the body and there is memory
  -- after each read: the receive loop ends by itself when the other side has closed, after any number of
  -- reads. The body is then exactly the text that was there before, as it came with the headers, and
  -- what was received, in order, with room for a terminator, and the error code is unchanged.
  pub receive_lem :
      (rounds : List (List Reply × Machine)) (ns : List ℕ) (p : P) (stream : List ℕ) (t : ℕ)
      (c : Client) (text : List ℕ)
      → PassesBody p
      → Plain t c
      → Carries c text
      → Reads t rounds ns
      → (c' : Client) × (receive execute rounds p stream c ≡ left c')
        × Carries c' (text ++ take (total ns) stream)
        × (c'.error_code ≡ c.error_code)
  receive_lem rounds ns p stream t c text b h k r =
      let (c', e, k', same, plain) = receive-Carries rounds ns p stream t c text b h k r in
      (c', e, k', same)
