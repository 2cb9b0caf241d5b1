-- ===== src/Http/Parser/Header.antt =====
-- A header of the response, from the pieces that http_parser hands to the callbacks of
-- httpclient/src/http.c to the fields that the client takes from it.
use mathlib.Core.List.{append_assoc, append-nil}
use mathlib.Core.Path.{subst}
use linux_c_code.Base.{
  ℕ, ◌+◌, ◌^◌, ◌<◌, ◌≡◌, refl, sym, ap, ◌∙◌, false, some, List, [], ◌∷◌, ◌++◌, ◌==◌, length,
  length-append, arith, inl, inr, ◌⊎◌,
}
use linux_c_code.Http.Field.{Field, stored, field_value_malloc}
use linux_c_code.Http.Field.Grow.{Holds, Ready, Holds-Ready, field_value_malloc-Holds}
use linux_c_code.Http.State.{Client, parsed_field, parsed_value}
use linux_c_code.Http.Parser.{
  Answer, proceed, refuse, corrupt, c_string, use_header, parser_field_value, on_header_value_cb,
  store_value,
}

unfoldable pub concat : List (List ℕ) → List ℕ
concat [] = []
concat (p ∷ ps) = p ++ concat ps

-- A callback for one piece after the other, until one does not return 0.
unfoldable pub feed : (List ℕ → Client → Answer) → List (List ℕ) → Client → Answer
feed step [] c = proceed c
feed step (p ∷ ps) c = elim (step p c) [
  | proceed c' ↦ feed step ps c'
  | refuse c' ↦ refuse c'
  | corrupt ↦ corrupt
]

pub feed-cons :
    (step : List ℕ → Client → Answer) (p : List ℕ) (ps : List (List ℕ)) (c c' : Client)
    → step p c ≡ proceed c'
    → feed step (p ∷ ps) c ≡ feed step ps c'
unfolding feed
feed-cons step p ps c c' e = ground arith

pub feed-nil : (step : List ℕ → Client → Answer) (c : Client) → feed step [] c ≡ proceed c
unfolding feed
feed-nil step c = refl

value_piece :
    (g : ℕ → ℕ) (c : Client) (p : List ℕ) (f : Field)
    → (c.statue ≡ parsed_field) ⊎ (c.statue ≡ parsed_value)
    → field_value_malloc (some g) c.header_value p ≡ stored f
    → on_header_value_cb (some g) p c
      ≡ proceed (record c { header_value = f; statue = parsed_value })
unfolding on_header_value_cb store_value
value_piece g c p f (inl s) e = ground (arith, s, e)
value_piece g c p f (inr s) e = ground (arith, s, e)

-- However the parser cuts the value of a header, the callback puts the pieces together, and changes
-- nothing else: if memory is there and the value is shorter than 2 ^ 16.
pub on_header_value_cb-feed :
    (g : ℕ → ℕ) (p : List ℕ) (ps : List (List ℕ)) (c : Client) (text : List ℕ)
    → (c.statue ≡ parsed_field) ⊎ (c.statue ≡ parsed_value)
    → Ready c.header_value text
    → length text + length (concat (p ∷ ps)) < 2 ^ 16
    → (f : Field) × Holds f (text ++ concat (p ∷ ps))
      × (feed (on_header_value_cb (some g)) (p ∷ ps) c
          ≡ proceed (record c { header_value = f; statue = parsed_value }))
unfolding concat
on_header_value_cb-feed g p [] c text s h small =
    let whole : p ++ [] ≡ p = append-nil p in
    let (f, e, r) =
      field_value_malloc-Holds g c.header_value text p h (omega (arith, length-append p [])) in
    (
      f,
      subst (λ x. Holds f (text ++ x)) (sym whole) r,
      feed-cons (on_header_value_cb (some g)) p [] c
            (record c { header_value = f; statue = parsed_value }) (value_piece g c p f s e)
          ∙ feed-nil _ _,
    )
on_header_value_cb-feed g p (q ∷ ps) c text s h small =
    let parts = length-append p (concat (q ∷ ps)) in
    let (f, e, r) = field_value_malloc-Holds g c.header_value text p h (omega arith) in
    let c1 = record c { header_value = f; statue = parsed_value } in
    let (f', r', e') =
      on_header_value_cb-feed g q ps c1 (text ++ p) (inr refl) (Holds-Ready f (text ++ p) r)
        (omega (arith, length-append text p)) in
    (
      f',
      subst (Holds f') (append_assoc text p (concat (q ∷ ps))) r',
      feed-cons (on_header_value_cb (some g)) p (q ∷ ps) c c1 (value_piece g c p f s e) ∙ e',
    )

abbrev pub NoZero : List ℕ → Type 0
NoZero [] = Unit
NoZero (b ∷ bs) = ((b == 0) ≡ false) × NoZero bs

c_string-text : (text rest : List ℕ) → NoZero text → c_string (text ++ (0 ∷ rest)) ≡ text
unfolding c_string
c_string-text [] rest h = refl
c_string-text (b ∷ text) rest h = rw (h.0) (ap (λ x. b ∷ x) (c_string-text text rest h.1))

-- Of a complete header, with a name and a value that are not empty and hold no zero byte, the client
-- uses exactly the name and the value.
pub parser_field_value_lem :
    (c : Client) (name value : List ℕ)
    → Holds c.header_field name
    → Holds c.header_value value
    → NoZero name
    → NoZero value
    → 0 < length name
    → 0 < length value
    → parser_field_value c ≡ use_header name value c
unfolding parser_field_value
parser_field_value_lem c name value hn hv zn zv ln lv = ground (
  arith,
  hn.cells,
  hn.used,
  hv.cells,
  hv.used,
  c_string-text name hn.rest zn,
  c_string-text value hv.rest zv,
)
