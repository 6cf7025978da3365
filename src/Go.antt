-- ===== src/Go.antt =====
-- What the sources use of Go's standard library, beside strings: hexadecimal and percent encoding,
-- decimal numbers, header maps, query strings, and instants.
pub mod Hex
pub mod Percent
pub mod Decimal
pub mod Clock
pub mod Http
pub mod Query
pub mod Form
