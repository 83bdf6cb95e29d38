-- ===== src/TcpConnection.antt =====
-- net/TcpConnection.h and net/TcpConnection.cpp: one TCP connection, with its channel and buffers.
-- `Object` is the class, `Output` its sending half, `Handlers` what its channel and its loop call.
pub mod Object
pub mod Output
pub mod Handlers
pub mod Stream
pub mod Sending
pub mod Draining
pub mod Steps
pub mod Delivery
pub mod Reading
pub mod Refusals
pub mod Progress
pub mod Lifecycle
mod Examples
