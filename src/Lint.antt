-- ===== src/Lint.antt =====
-- build_support/cpplint.py: the state of the linter, the suppression of errors, and their report.
pub mod Categories
pub mod State
pub mod Suppress
pub mod Report
pub mod Nolint
pub mod Filters
pub mod Counts
pub mod Silence
mod Mentions
pub mod Comments
mod Tests
