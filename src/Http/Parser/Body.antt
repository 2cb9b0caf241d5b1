-- ===== src/Http/Parser/Body.antt =====
-- The body of the response, from the pieces that http_parser hands to `on_body_cb` of
-- httpclient/src/http.c.
use mathlib.Core.List.{append_assoc, append-nil}
use mathlib.Core.Path.{subst}
use linux_c_code.Base.{
  ℕ, ◌+◌, ◌-◌, ◌≡◌, refl, sym, ap, ◌∙◌, none, some, List, [], ◌∷◌, ◌++◌, length, length-append,
  drop, arith,
}
use linux_c_code.Http.Field.{fill, resize, write_at}
use linux_c_code.Http.Field.Grow.{write-behind, length-fill, length-drop, resize-more}
use linux_c_code.Http.State.{Client}
use linux_c_code.Http.Parser.Header.{concat, feed, feed-cons, feed-nil}
use linux_c_code.Http.Parser.{proceed, positive, body_memory, copy_body, on_body_cb}

-- The body is the text, with room for a terminator behind it.
pub record HasBody (c : Client) (text : List ℕ) : Type 0 where
  pub rest : List ℕ
  pub cells : c.body ≡ some (text ++ rest)
  pub used : c.body_len ≡ length text
  pub terminator : length rest ≡ 1

-- No piece of the body has come.
pub record NoBody (c : Client) : Type 0 where
  pub cells : c.body ≡ none
  pub used : c.body_len ≡ 0

copy_body-proceed :
    (c : Client) (cells cells1 bytes : List ℕ)
    → write_at c.body_len bytes cells ≡ some cells1
    → copy_body cells bytes c
      ≡ proceed (record c { body = some cells1; body_len = c.body_len + length bytes })
unfolding copy_body
copy_body-proceed c cells cells1 bytes e = ground arith

copy_body-HasBody :
    (c : Client) (text bytes old : List ℕ)
    → c.body_len ≡ length text
    → length old ≡ length bytes + 1
    → (c' : Client) × (copy_body (text ++ old) bytes c ≡ proceed c')
      × HasBody c' (text ++ bytes)
      × (c'.content_length ≡ c.content_length)
copy_body-HasBody c text bytes old used h =
    let rest = drop (length bytes) old in
    let w : write_at c.body_len bytes (text ++ old) ≡ some (text ++ (bytes ++ rest)) =
      ap (λ n. write_at n bytes (text ++ old)) used ∙ write-behind text bytes old (omega arith) in
    (
      record c { body = some (text ++ (bytes ++ rest)); body_len = c.body_len + length bytes },
      copy_body-proceed c (text ++ old) (text ++ (bytes ++ rest)) bytes w,
      record {
        rest = rest;
        cells = ap some (sym (append_assoc text bytes rest));
        used = omega (arith, length-append text bytes, used);
        terminator = omega (arith, length-drop (length bytes) old);
      },
      refl,
    )

grown :
    (g : ℕ → ℕ) (n : ℕ) (c : Client) (cells : List ℕ)
    → positive c.content_length ≡ none
    → c.body ≡ some cells
    → body_memory g n c ≡ resize g (c.body_len + n + 1) cells
unfolding body_memory
grown g n c cells e b = ground (arith, e)

first_memory :
    (g : ℕ → ℕ) (n : ℕ) (c : Client)
    → positive c.content_length ≡ none
    → c.body ≡ none
    → body_memory g n c ≡ fill (n + 1) (λ k. 0)
unfolding body_memory
first_memory g n c e b = ground (arith, e)

pub on_body_cb-first :
    (g : ℕ → ℕ) (c : Client) (bytes : List ℕ)
    → positive c.content_length ≡ none
    → NoBody c
    → (c' : Client) × (on_body_cb (some g) bytes c ≡ proceed c')
      × HasBody c' bytes
      × (c'.content_length ≡ c.content_length)
unfolding on_body_cb
on_body_cb-first g c bytes e h =
    let old = fill (length bytes + 1) (λ k. 0) in
    let (c', p, r, s) =
      copy_body-HasBody c [] bytes old h.used (length-fill (length bytes + 1) (λ k. 0)) in
    (c', ap (λ m. copy_body m bytes c) (first_memory g (length bytes) c e h.cells) ∙ p, r, s)

pub on_body_cb-next :
    (g : ℕ → ℕ) (c : Client) (text bytes : List ℕ)
    → positive c.content_length ≡ none
    → HasBody c text
    → (c' : Client) × (on_body_cb (some g) bytes c ≡ proceed c')
      × HasBody c' (text ++ bytes)
      × (c'.content_length ≡ c.content_length)
unfolding on_body_cb
on_body_cb-next g c text bytes e h =
    let cells = text ++ h.rest in
    let n = c.body_len + length bytes + 1 in
    let size : length cells ≡ length text + 1 = omega (arith, length-append text h.rest, h) in
    let more = fill (n - length cells) g in
    let old = h.rest ++ more in
    let room : length old ≡ length bytes + 1 =
      omega (arith, length-append h.rest more, length-fill (n - length cells) g, h) in
    let grow : body_memory g (length bytes) c ≡ text ++ old =
      grown g (length bytes) c cells e h.cells
      ∙ resize-more g n cells (omega (arith, h))
      ∙ append_assoc text h.rest more in
    let (c', p, r, s) = copy_body-HasBody c text bytes old h.used room in
    (c', ap (λ m. copy_body m bytes c) grow ∙ p, r, s)

on_body_cb-rest :
    (g : ℕ → ℕ) (ps : List (List ℕ)) (c : Client) (text : List ℕ)
    → positive c.content_length ≡ none
    → HasBody c text
    → (c' : Client) × (feed (on_body_cb (some g)) ps c ≡ proceed c')
      × HasBody c' (text ++ concat ps)
unfolding concat
on_body_cb-rest g [] c text e h =
    (c, feed-nil (on_body_cb (some g)) c, subst (HasBody c) (sym (append-nil text)) h)
on_body_cb-rest g (p ∷ ps) c text e h =
    let (c1, q, r, same) = on_body_cb-next g c text p e h in
    let (c', q', r') = on_body_cb-rest g ps c1 (text ++ p) (ap positive same ∙ e) r in
    (
      c',
      feed-cons (on_body_cb (some g)) p ps c c1 q ∙ q',
      subst (HasBody c') (append_assoc text p (concat ps)) r',
    )

-- Without a content length, and with memory, `on_body_cb` gathers the pieces of the body in their
-- order, however the parser cuts it, always with room for the terminator.
pub on_body_cb-feed :
    (g : ℕ → ℕ) (p : List ℕ) (ps : List (List ℕ)) (c : Client)
    → positive c.content_length ≡ none
    → NoBody c
    → (c' : Client) × (feed (on_body_cb (some g)) (p ∷ ps) c ≡ proceed c')
      × HasBody c' (concat (p ∷ ps))
unfolding concat
on_body_cb-feed g p ps c e h =
    let (c1, q, r, same) = on_body_cb-first g c p e h in
    let (c', q', r') = on_body_cb-rest g ps c1 p (ap positive same ∙ e) r in
    (c', feed-cons (on_body_cb (some g)) p ps c c1 q ∙ q', r')
