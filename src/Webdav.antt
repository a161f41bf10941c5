-- ===== src/Webdav.antt =====
-- The WebDAV package, without Django's request and response objects.
pub mod Permissions
pub mod Requests
pub mod Handlers
pub mod Propfind
pub mod Dispatch
