-- ===== src/Symbols.antt =====
-- The symbol of a part from its pin table: src/dsvire/symbol_extract.py and symbol_layout.py.
pub mod Electrical
pub mod Lines
pub mod Table
pub mod Spec
pub mod Sides
pub mod Layout
pub mod Parsing
pub mod Ordering
pub mod Placing
pub mod Spacing
pub mod Compile
pub mod Job
pub mod Compiling
