-- ===== src/Http.antt =====
-- app/src/plc_http.c: the web server. Its texts are lists of bytes.
pub mod Frames
pub mod Requests
pub mod Lengths
pub mod Search
pub mod Keys
pub mod Routing
pub mod Paths
pub mod Files
pub mod Served
pub mod Status
pub mod Server
pub mod Thread
pub mod Spaced
pub mod Checks
