-- ===== src/Stable.antt =====
-- contracts/terraswap_stable: the stable-swap pair.
pub mod Curve
pub mod Liquidity
pub mod Types
pub mod Provide
pub mod Withdraw
pub mod Swap
pub mod Contract
pub mod Query
