-- ===== src/Demangle.antt =====
-- demangle.cc
pub mod Machine
pub mod Output
pub mod Parser
pub mod Tokens
pub mod Numerals
pub mod Operators
pub mod Names
pub mod Types
pub mod Qualified
pub mod Encodings
pub mod Expressions
pub mod Forms
pub mod Grammar
pub mod Moves
pub mod Rules
pub mod Guards
pub mod Writes
pub mod Scans
pub mod Reads
pub mod Numbers
pub mod Acts
pub mod NamesGood
pub mod Listed
pub mod TypesGood
pub mod QualifiedGood
pub mod ExpressionsGood
pub mod Total
pub mod Backtracking
pub mod Restores
pub mod Appends
pub mod Values
pub mod Limits
pub mod Ranges
pub mod Tables
pub mod Defects
pub mod Runs
pub mod Examples
