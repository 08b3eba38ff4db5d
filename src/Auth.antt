-- ===== src/Auth.antt =====
-- internal/presentation/s3api/auth.go: the decoder of aws-chunked bodies. The signature is left out:
-- sha256, hmac and the parts of the request are a library's.
pub mod Chunked
pub mod Framing
pub mod Decoded
pub mod Bodies
mod Examples
