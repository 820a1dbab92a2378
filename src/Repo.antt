-- ===== src/Repo.antt =====
-- Records of the layers above the engine, internal/repo.
pub mod Topics
pub mod Contents
pub mod Scenes
