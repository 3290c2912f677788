-- ===== src/Net.antt =====
-- Packets and the buffers of connections (water/net).
pub mod ConnectionBuffer
pub mod TcpPacket
