-- ===== src/Store/Cookie.antt =====
-- rp/store/cookie/store.go and options.go: a state store inside a session cookie.
pub mod Payload
pub mod Session
pub mod Operations
pub mod Values
pub mod Carried
pub mod RoundTrip
pub mod Kept
pub mod Attributes
mod Tests
