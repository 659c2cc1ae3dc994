-- ===== src/Checks.antt =====
-- build_support/cpplint.py: the checks of single lines. A check is a function to the list of the calls that
-- it makes of its argument `error`.
pub mod Calls
pub mod Formats
pub mod Nonstandard
pub mod Arguments
pub mod FunctionSpacing
pub mod Places
pub mod Comments
pub mod Spacing
pub mod Operators
pub mod Parentheses
pub mod Width
pub mod BracePatterns
pub mod Braces
pub mod EmptyBodies
pub mod Macros
pub mod Tokens
pub mod BraceSpacing
pub mod Classes
pub mod FeaturePatterns
pub mod Features
pub mod Printf
mod Tests
