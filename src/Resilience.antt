-- ===== src/Resilience.antt =====
-- `RetryHandler` and `ResultValidator` of src/scrapeyard/engine/resilience.py. The circuit breaker of
-- the same file is in Circuit.
pub mod Retry
pub mod Tries
pub mod Validator
