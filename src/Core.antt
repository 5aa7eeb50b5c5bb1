-- ===== src/Core.antt =====
-- src/proxy_core.c and src/proxy_core.h: the decisions of the proxy, free of the platform.
pub mod Hooks
pub mod Command
pub mod Identity
pub mod Link
pub mod Send
