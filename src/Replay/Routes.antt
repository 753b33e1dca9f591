-- ===== src/Replay/Routes.antt =====
-- `test_invalid_operations` of contracts/terraswap_router/src/contract.rs
use terraswap.Prelude.{String, [], err, ok, ◌∷◌, ◌≡◌}
use terraswap.Asset.{native_token, token}
use terraswap.Host.{StdError}
use terraswap.Router.{SwapOperation, assert_operations, native_swap, terra_swap}

abbrev to_asset0001 : SwapOperation
to_asset0001 = terra_swap (native_token "ukrw") (token "asset0001")

abbrev to_asset0002 : SwapOperation
to_asset0002 = terra_swap (native_token "uluna") (token "asset0002")

abbrev from_asset0001 : String → SwapOperation
from_asset0001 denom = terra_swap (token "asset0001") (native_token denom)

abbrev pub TestInvalidOperations : Type 0
TestInvalidOperations =
    (e e' : StdError) × (assert_operations [] ≡ err e)
    × (assert_operations (native_swap "uusd" "uluna" ∷ to_asset0001 ∷ from_asset0001 "uluna" ∷ [])
        ≡ ok tt)
    × (assert_operations
          (native_swap "uusd" "uluna" ∷ to_asset0001 ∷ from_asset0001 "uluna" ∷ to_asset0002 ∷ [])
        ≡ ok tt)
    × (assert_operations
          (native_swap "uusd" "ukrw" ∷ to_asset0001 ∷ from_asset0001 "uaud" ∷ to_asset0002 ∷ [])
        ≡ err e')
