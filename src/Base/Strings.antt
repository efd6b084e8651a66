-- ===== src/Base/Strings.antt =====
-- Python's `str` as a list of code points, with the methods that the program calls on it.
mod Defs
mod Strip
mod Split
mod Members
mod Join
mod Lines
mod Sort
unfoldable pub use Defs.*
unfoldable pub use Lines.*
pub use Join.*
pub use Strip.*
unfoldable pub use Split.*
unfoldable pub use Members.*
unfoldable pub use Sort.*
