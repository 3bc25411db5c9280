-- ===== src/Transport/HlPost.antt =====
-- src/hl_ws_post.cpp: what a response says, the table of requests that wait for one, and the locks that
-- guard it.
pub mod Parse
pub mod Table
pub mod Waiting
pub mod Answers
pub mod Locks
