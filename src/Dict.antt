-- ===== src/Dict.antt =====
-- Python's dict and set, over any keys with an equality test.
mod Assoc
mod Laws
mod Total
unfoldable pub use Assoc.{
  get, get_or, contains, put, set_default, erase, total, credit, member, add,
}
pub use Assoc.{Dict, IsUnique}
pub use Laws.*
pub use Total.*
