-- ===== src/Rules.antt =====
-- toinflux/rules.py
pub mod Result
pub mod Chars
pub mod Tokens
pub mod Syntax
pub mod Height
pub mod Parser
pub mod Evaluate
pub mod Rule
pub mod Examples
