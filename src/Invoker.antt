-- ===== src/Invoker.antt =====
-- The main program (cmd/invoker/main.go): the workers that read from Kafka, and what runs beside them.
pub mod Offsets
pub mod Highest
pub mod Swapping
pub mod Poking
pub mod Workers
pub mod Blocking
mod Tests
