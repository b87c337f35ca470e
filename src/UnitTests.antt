-- ===== src/UnitTests.antt =====
-- The unit tests of the sources, as equations between what the model computes and what the test
-- expects: `assert_eq!(a, b)` is `a ≡ b`, and `assert!(b)` is `b ≡ true`. A test is a type, and its
-- proof computes. Where a test goes through a crate that is a parameter, it runs on a small reading
-- of that crate.
mod Fixtures
mod Duration
mod Schedule
mod Validation
mod Auth
mod Config
mod Views
mod Controller
mod Resource
mod Rotation
mod Rotator
mod OpenBao
mod Gauges
