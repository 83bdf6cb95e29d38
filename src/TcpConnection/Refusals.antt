-- ===== src/TcpConnection/Refusals.antt =====
-- `sendInLoop` when its direct write(2) fails.
