-- ===== src/Nesting.antt =====
-- build_support/cpplint.py: the classes _BlockInfo to NestingState, the blocks that are open at a line.
pub mod Block
pub mod Preprocessor
pub mod Branches
pub mod Ends
pub mod Comments
pub mod Completed
pub mod Templates
mod Remaining
mod Rounds
pub mod Answers
pub mod Braces
pub mod Update
pub mod Tokens
pub mod Scan
pub mod Bodies
mod BodyLines
pub mod Restored
mod Tests
mod Runs
