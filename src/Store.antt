-- ===== src/Store.antt =====
-- What the services see of the database: the Prisma client (a library, so a parameter), the tables
-- and the request's clock and identifiers, and the monad in which a handler runs.
mod Tables
mod Database
pub mod Action
pub mod Holds
pub mod Found
pub mod Sorted
pub mod Reads
pub mod Memory
pub use Tables.*
pub use Database.*
