-- ===== src/UnitTests.antt =====
-- The unit tests of the source, as functions into Bool on the model, and that they hold there.
mod Breakers
mod Conversions
mod Paths
mod Batches
mod Headers
mod Limits
