-- ===== src/Traefik.antt =====
-- crates/purple-wolf-traefik: the http-wasm guest.
pub mod Scalar
pub mod Adapter
pub mod Host
pub mod Abi
pub mod Body
pub mod Peer
pub mod Entry
pub mod Guest
