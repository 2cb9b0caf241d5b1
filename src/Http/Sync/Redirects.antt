-- ===== src/Http/Sync/Redirects.antt =====
-- The redirects that `http_internal_sync_request` of httpclient/src/http.c follows by calling itself.
use linux_c_code.Base.{ℕ, zero, suc, ◌≡◌, refl, ◌∙◌, Bool, Option, List, [], ◌∷◌, replicate, arith}
use linux_c_code.Http.State.{Client}
use linux_c_code.Http.Connect.{Parts}
use linux_c_code.Http.Response.{Event}
use linux_c_code.Http.Client.{reset}
use linux_c_code.Http.Sync.{Trip, unanswered, redirected, connection, internal_request}

module _ {P : Type 0} (parse_url : List ℕ → Option Parts) (start : P)
    (execute : P → List ℕ → List Event × Bool × P) where
  one_redirect :
      (t : Trip) (ts : List Trip) (url content : List ℕ) (header : Option (List ℕ)) (c : Client)
      (url' : List ℕ) (c' : Client)
      → connection parse_url start execute t url content header (reset c) ≡ redirected url' c'
      → internal_request parse_url start execute (t ∷ ts) url content header c
        ≡ internal_request parse_url start execute ts url' content header c'
  unfolding internal_request
  one_redirect t ts url content header c url' c' e = ground (arith, e)

  no_trip :
      (url content : List ℕ) (header : Option (List ℕ)) (c : Client)
      → internal_request parse_url start execute [] url content header c ≡ unanswered
  unfolding internal_request
  no_trip url content header c = refl

  -- There is no bound on redirects: while a server answers each connection with another redirect, the
  -- request has no result, after any number of connections.
  pub internal_request-replicate :
      (n : ℕ) (t : Trip) (Follows : List ℕ → Client → Type 0) (content : List ℕ)
      (header : Option (List ℕ)) (url : List ℕ) (c : Client)
      → ((url : List ℕ) (c : Client)
          → Follows url c
          → (url' : List ℕ) × (c' : Client) × Follows url' c'
            × (connection parse_url start execute t url content header (reset c)
                ≡ redirected url' c'))
      → Follows url c
      → internal_request parse_url start execute (replicate n t) url content header c ≡ unanswered
  internal_request-replicate zero t Follows content header url c h f = no_trip url content header c
  internal_request-replicate (suc n) t Follows content header url c h f =
      let (url', c', f', e) = h url c f in
      one_redirect t (replicate n t) url content header c url' c' e
      ∙ internal_request-replicate n t Follows content header url' c' h f'
