-- ===== src/Http/Client.antt =====
-- The small entry points of httpclient/src/http.c. A client that is NULL is `none`.
use linux_c_code.Base.{ℕ, true, false, Option, none, some, ◌==◌, if◌then◌else◌}
use linux_c_code.Base.Int.{ℤ, pos, negsuc}
use linux_c_code.Http.State.{Client, Error, ok, no_field, parsed_none}

-- `ft_http_get_error_code`; `none` is -1.
unfoldable pub get_error_code : Option Client → Option Error
get_error_code none = none
get_error_code (some c) = some c.error_code

-- `ft_http_get_status_code`
unfoldable pub get_status_code : Option Client → Option ℕ
get_status_code none = none
get_status_code (some c) = some c.status_code

-- `ft_http_set_timeout`
unfoldable pub set_timeout : Option Client → ℤ → ℤ × Option Client
set_timeout none t = (negsuc 0, none)
set_timeout (some c) (negsuc n) = (pos 0, some (record c { timeout = 0 }))
set_timeout (some c) (pos n) = (pos 0, some (record c { timeout = n }))

-- `ft_http_exit`
unfoldable pub exit : Option Client → Option Client
exit none = none
exit (some c) = some (record c { exit = true })

-- The fields that `http_internal_sync_request` resets before it connects.
unfoldable pub reset : Client → Client
reset c = record c {
  body = none;
  header_field = no_field;
  header_value = no_field;
  redirect = false;
  body_len = 0;
  content_length = pos 0;
  statue = parsed_none;
  error_code = ok;
  timeout = (if c.timeout == 0 then 15_000 else c.timeout);
}
