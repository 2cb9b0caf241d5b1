-- ===== src/Http.antt =====
-- The HTTP client of httpclient/src/http.c, over plain sockets: FT_SUPPORT_HTTPS is not defined.
pub mod Field
pub mod State
pub mod Parser
pub mod Socket
pub mod Descriptor
pub mod Request
pub mod Client
pub mod Connect
pub mod Response
pub mod Sync
mod Tests
