-- ===== src/Config.antt =====
-- runtime/src/Config.cpp and Config.h: the configuration file. A text is the list of its bytes. The
-- scale is a `float`: its type, `std::stof` and the two comparisons are a parameter.
pub mod Setting
pub mod Ranges
pub mod Lines
pub mod Print
pub mod Reload
unfoldable pub use Setting.*
