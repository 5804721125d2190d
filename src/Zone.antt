-- ===== src/Zone.antt =====
-- Master files: src/simple-dnsd/zone/zone.cpp.
pub mod Lexer
pub mod Parse
pub mod NamedConf
pub mod Exchange
pub mod Write
pub mod Check
