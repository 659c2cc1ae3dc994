-- ===== src/Lines.antt =====
-- build_support/cpplint.py: what is taken out of the lines before they are checked, raw strings,
-- comments and string literals (CleanseRawStrings, RemoveMultiLineComments, CleansedLines).
pub mod Comments
pub mod Cleansed
pub mod RawStrings
mod RawLengths
mod RawOpen
mod RawIndent
mod RawTotal
pub mod Removal
mod Rounds
mod Steps
pub mod MultiLine
pub mod Collapse
mod CollapseTotal
pub mod Aligned
mod Tests
