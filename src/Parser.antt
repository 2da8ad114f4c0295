-- ===== src/Parser.antt =====
-- The actions of Assig4/parser.y.
pub mod Control
pub mod Types
mod Tests
