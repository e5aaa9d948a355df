-- ===== src/Stomp.antt =====
-- The STOMP frames of the program: inc/network-monitor/StompFrame.h and src/StompFrame.cpp.
pub mod Command
pub mod Header
pub mod Errors
pub mod Names
pub mod Number
pub mod Outcome
pub mod Decimal
pub mod Frame
