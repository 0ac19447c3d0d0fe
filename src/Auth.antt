-- ===== src/Auth.antt =====
-- src/auth.rs: bearer tokens, their signing keys, and the authentication of a request.
-- The JWT library, the fetch of keys and the clock are parameters (Auth/Config, Auth/Keys).
pub mod Config
pub mod Keys
pub mod Validate
pub mod Accepted
pub mod Refreshes
pub mod Rotation
pub mod Middleware
pub mod Passing
mod Examples
