-- ===== src/Py.antt =====
-- What the code uses of Python: its values, texts, exceptions and statements.
pub mod Value
pub mod Text
pub mod Exec
