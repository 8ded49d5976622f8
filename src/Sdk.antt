-- ===== src/Sdk.antt =====
-- sdk: the library that workers are written with.
pub mod FanOut
pub mod Worker
