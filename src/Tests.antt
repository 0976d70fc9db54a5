-- ===== src/Tests.antt =====
-- Runs at concrete inputs.
mod Samples
mod Deciding
mod Recording
mod Secrets
mod Mediating
mod Guarding
mod Packing
mod Reading
mod Fronting
mod Serving
mod Approving
mod Routing
mod Answering
mod Wiring
mod Scoring
mod Starting
mod Watching
