-- ===== src/Text.antt =====
-- The functions of Go's `strings`, `fmt` and `path/filepath` that the program calls. A Go string is
-- modelled as UTF-8 text, so `len` counts bytes as in Go.
pub mod Trim
pub mod Decimal
pub mod FilePath
