-- ===== src/Docker.antt =====
-- The containers of Docker (pkg/exec/docker/container.go): their requests, their pausing, the
-- addresses they use, and the lines they write.
pub mod Requests
pub mod Pausing
pub mod Addresses
pub mod Streams
mod Tests
