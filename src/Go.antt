-- ===== src/Go.antt =====
-- What the code uses of Go itself: machine integers, float64, time, strconv and strings.
pub mod Word
pub mod Float
pub mod Time
pub mod Strconv
pub mod Json
pub mod Base64
pub mod Digits
pub mod Format
