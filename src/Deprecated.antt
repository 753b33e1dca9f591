-- ===== src/Deprecated.antt =====
-- contracts/terraswap_pair_deprecated: the constant-product pair.
pub mod Bignum
pub mod Types
pub mod Price
pub mod Pair
pub mod Provide
pub mod Swap
pub mod Entry
pub mod Query
pub mod Reserves
