-- ===== src/Common/Text.antt =====
-- `std::string` and C strings as lists of character codes, with the searches that the code uses.
mod Search
mod Decimal
mod RoundTrip
unfoldable pub use Search.*
unfoldable pub use Decimal.*
pub use RoundTrip.*
