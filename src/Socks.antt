-- ===== src/Socks.antt =====
-- projects/04-socks-proxy: the SOCKS4/4A proxy (socks_server.cpp) and the console that uses it as a
-- client (console_components.hpp).
pub mod Address
pub mod Request
pub mod Reply
pub mod Firewall
pub mod Proxy
pub mod Relay
mod Tests
