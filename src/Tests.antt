-- ===== src/Tests.antt =====
-- Runs of the code on small inputs, and examples of the theorems.
mod Host
mod Bignum
mod Curve
mod Pair
mod Deprecated
mod Shares
mod Reserves
mod Quotes
mod Calls
mod Assets
mod Router
mod Simulated
mod Token
mod Factory
mod History
mod Store
mod Pages
mod Mock
mod Replay
mod Prices
mod Units
mod Routes
