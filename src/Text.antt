-- ===== src/Text.antt =====
-- The texts of core/common/str.cpp: a text is the list of its bytes.
pub mod Utf8
pub mod Shell
pub mod Split
pub mod Lines
mod Tests
