-- ===== src/Terminal.antt =====
-- crates/terminal-model: the scrollback ring and the input modes of a shell's terminal.
pub mod History
pub mod Modes
pub mod Examples
