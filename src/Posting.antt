-- ===== src/Posting.antt =====
-- internal/run/statuses.go and attempt.go: the posting of a commit status, and the findings of an attempt.
pub mod Fit
pub mod Post
pub mod Short
pub mod Once
pub mod Attempts
pub mod Silent
