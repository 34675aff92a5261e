-- ===== src/TcpConnection/Race.antt =====
-- TcpConnection: `forceClose` from another thread, whose test of the state and what follows it are not one
-- step.
use mynuduo.TcpConnection.Onward.{Onward}
