-- ===== src/Layout.antt =====
-- src/layout/: how the bytes of a file are spread over the server objects.
pub mod Distribution
pub mod Stripe
pub mod Tests
