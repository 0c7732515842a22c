-- ===== src/Options.antt =====
-- src/quitsies/options.hpp and options.cpp: the options of the command line.
pub mod Kinds
pub mod Parse
pub mod Reads
pub mod Apart
mod Tests
