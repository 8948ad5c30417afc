-- ===== src/IsoBuilder.antt =====
-- syn-iso-builder (SYN-SOFTWARE/syn-iso-builder-src/src): the parts of its text interface that
-- keep state of their own.
pub mod Edition
pub mod ScrollMenu
mod Tests
