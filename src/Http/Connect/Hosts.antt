-- ===== src/Http/Connect/Hosts.antt =====
-- The buffer for the host in `http_connect_host` of httpclient/src/http.c.
use linux_c_code.Base.{ℕ, ◌<◌, ◌≡◌, true, none, some, List, length, arith, ◌↔◌}
use linux_c_code.Base.Int.{ℤ}
use linux_c_code.Http.Field.{fill, write_at}
use linux_c_code.Http.Field.Grow.{length-fill}
use linux_c_code.Http.Connect.{
  Network, Parts, Part, overrun, part_text, schema_fine, port_of, connect_name, connect_host,
}

fits : (host : List ℕ) → (write_at 0 host (fill 256 (λ k. 0)) ≡ none) ↔ (256 < length host)
unfolding write_at
fits host = let n = length-fill 256 (λ k. 0) in ground (arith, n)

connect_name-overrun :
    (net : Network) (timeout : ℤ) (port : ℕ) (host : List ℕ)
    → (connect_name net timeout port host ≡ overrun) ↔ (256 < length host)
unfolding connect_name
connect_name-overrun net timeout port host = let f = fits host in ground (arith, f)

-- `http_connect_host` copies the host of a URL with a schema that it takes past the end of its buffer
-- exactly if the host is longer than 256 bytes.
pub connect_host-overrun :
    (net : Network) (timeout : ℤ) (url : List ℕ) (u : Parts) (p : Part)
    → schema_fine url u.schema ≡ true
    → u.host ≡ some p
    → (connect_host net timeout url u ≡ overrun) ↔ (256 < length (part_text url p))
unfolding connect_host
connect_host-overrun net timeout url u p s h =
    let f = connect_name-overrun net timeout (port_of url u.port) (part_text url p) in
    ground (arith, s, h, f)
