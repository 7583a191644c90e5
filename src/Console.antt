-- ===== src/Console.antt =====
-- projects/03-http-cgi-console, and the parts of projects/04-socks-proxy/console_components.hpp that
-- do the same work for the console behind the proxy.
pub mod Url
pub mod Query
pub mod Escape
pub mod Prompt
pub mod Pages
pub mod Panel
pub mod Session
pub mod Batch
pub mod Http
pub mod Cgi
mod Tests
