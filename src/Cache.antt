-- ===== src/Cache.antt =====
-- modules/github_preview/cache.go: what the middleware remembers of resolved pull requests and
-- branches, and the downloaded artifacts.
pub mod Metadata
pub mod Artifact
mod Tests
