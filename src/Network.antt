-- ===== src/Network.antt =====
-- 4_order_book_proj/src/network_device.hpp: the device between the sockets and the queues.
pub mod Sockets
pub mod Uring
pub mod Epoll
mod Tests
