-- ===== src/Daemon/Logger/Tests.antt =====
-- The logger at two turns.
