-- ===== src/Bar.antt =====
-- syn-bar-core (SYN-SOFTWARE/syn-bar-core-src/src): what the bar's daemon hears from syn-hum.
pub mod Hum
pub mod Heard
pub mod Relay
pub mod Titles
mod Tests
