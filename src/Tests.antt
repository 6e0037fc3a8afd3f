-- ===== src/Tests.antt =====
-- The code on concrete inputs, and each theorem at an input that meets its hypotheses.
mod Sample
mod Platform
mod Worker
mod Dsff
mod Concatenations
mod Visual
mod Storage
mod Retrieval
mod Pipeline
mod Symbols
