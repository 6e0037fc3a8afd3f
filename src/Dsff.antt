-- ===== src/Dsff.antt =====
-- Figure fusion: src/dsvire/dsff.py.
pub mod Token
pub mod Splits
pub mod Rounds
pub mod Tokens
pub mod Affine
pub mod Content
pub mod Groups
pub mod Concatenations
pub mod Fusion
pub mod Used
pub mod Matching
pub mod Fused
