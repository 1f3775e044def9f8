-- ===== src/Go.antt =====
-- The parts of Go's standard library that the driver's text handling rests on.
pub mod Decimal
pub mod Base64
pub mod Strings
pub mod Url
pub mod Xml
pub mod Path
pub mod Literal
pub mod Flag
