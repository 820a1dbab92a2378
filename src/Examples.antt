-- ===== src/Examples.antt =====
-- Runs of the program's parts on small data, one for every theorem that has a hypothesis.
mod History
mod Engine
mod Formats
mod Mirrors
mod Plan
mod Graph
mod Records
mod Batch
mod Topics
mod Contents
mod Scenes
