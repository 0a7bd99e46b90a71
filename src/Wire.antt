-- ===== src/Wire.antt =====
-- The messages that the router is handed and answers: angzarr-core's, whose crates are not part of
-- this repository. A record here has the fields that the router's code reads or writes. With
-- crates/router/src/lib.rs: the helpers that read them.
pub mod Payload
pub mod Messages
pub mod Requests
pub mod Reading
pub mod TypeUrls
