-- ===== src/Js.antt =====
-- The parts of JavaScript's own values and texts that the modelled code uses.
pub mod Text
pub mod Value
pub mod Texts
