-- ===== src/Schema.antt =====
-- The rows of prisma/schema.prisma that the modelled services read or write. Identifiers, phone
-- numbers, codes, hashes and free texts are only compared and copied, so they are numbers; money
-- is in hundredths of a toman (the columns are `Decimal(_, 2)`); times are milliseconds.
mod Enums
mod Rows
mod Keys
pub use Enums.*
pub use Rows.*
pub use Keys.*
