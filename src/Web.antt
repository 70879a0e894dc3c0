-- ===== src/Web.antt =====
-- game_client/game_client/Web.h and Web.cpp: the URL codec and the HTTP form of `openutils`.
pub mod Codec
pub mod Form
pub mod Body
pub mod Request
pub mod Examples
