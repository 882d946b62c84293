-- ===== src/Store/Concrete.antt =====
-- Implementations of the interfaces of the services over lists and functions, at which the
-- theorems about the program can be tried out.
mod Keys
mod Sorted
mod Documents
pub use Keys.{key_space}
pub use Sorted.{sorted_set}
pub use Documents.{collection, insert_doc_absent}
