-- ===== src/Http/Sync/Success.antt =====
-- A request of httpclient/src/http.c that succeeds, from the URL to the body.
use linux_c_code.Base.{false}
use linux_c_code.Http.State.{Client, Method}
use linux_c_code.Http.Client.{reset}

-- The client when the connection begins.
unfoldable pub asking : Method → Client → Client
asking m c = reset (record c { method = m; download = false })
