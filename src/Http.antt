-- ===== src/Http.antt =====
-- The http process (processes/http).
pub mod UrlCode
