-- ===== src/Hum.antt =====
-- syn-hum (SYN-SOFTWARE/syn-hum-src/src): the settings of the acoustic monitor.
pub mod Conf
pub mod Save
pub mod Command
pub mod Crew
pub mod Line
mod Tests
mod SaveTests
