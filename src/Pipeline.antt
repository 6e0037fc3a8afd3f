-- ===== src/Pipeline.antt =====
-- The evidence of a part from its datasheet: src/dsvire/pipeline.py.
pub mod Chars
pub mod Phrases
pub mod Scores
pub mod Pages
pub mod Regions
pub mod Identity
pub mod Discovery
pub mod Bundles
pub mod Cached
pub mod Crops
pub mod Actions
pub mod Packs
pub mod Best
pub mod Boxes
pub mod Mpns
pub mod Grounded
pub mod Folders
pub mod Publishing
pub mod Strengths
pub mod Staging
pub mod Serving
pub mod Building
pub mod Moments
pub mod Retrieving
pub mod Spelling
pub mod Resolving
