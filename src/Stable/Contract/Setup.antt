-- ===== src/Stable/Contract/Setup.antt =====
-- The set-up of a pair: `instantiate`, the reply of the chain, and the queries
-- (contracts/terraswap_stable/src/contract.rs).
use terraswap.Prelude.{
  >>=-elim, Option, String, [], ap, none, ok, ok-injective, refl, some, sym, traverse, ◌∷◌, ◌≡◌,
}
use terraswap.Asset.{PairInfoRaw, info_to_raw, pair_to_normal}
use terraswap.Asset.Raw.{traverse-to_normal}
use terraswap.Host.{Env, Host, IsAddress}
use terraswap.Stable.Contract.{instantiate, parsed, query_pair_info, reply, unwrap_data}
use terraswap.Stable.Types.{Binary, InstantiateMsg, Response, TokenSubMsg, load}
use terraswap.Token.{all_symbol_bytes, is_valid_name, is_valid_symbol, validate}

-- An `instantiate` that succeeds asks for one token, with the code id of the message, which
-- passes the token contract's own checks and has the pair as its minter, without a cap.
instantiate-validate :
    (h : Host) (env : Env) (msg : InstantiateMsg) {store : Option PairInfoRaw} {response : Response}
    → instantiate h env msg ≡ ok (store, response)
    → (sub : TokenSubMsg) × (response.submessages ≡ sub ∷ [])
      × (sub.code_id ≡ msg.token_code_id)
      × (validate sub.msg ≡ ok tt)
      × (sub.msg.mint ≡ some (record { minter = env.contract_address; cap = none }))
unfolding instantiate validate is_valid_name is_valid_symbol all_symbol_bytes
instantiate-validate h env msg {store} {response} e =
    >>=-elim (traverse (info_to_raw h) msg.asset_infos) _ e λ infos _ e₁.
      >>=-elim (h.addr_canonicalize env.contract_address) _ e₁ λ address _ e₂.
        let same =
          ap (λ (x : Option PairInfoRaw × Response). x.1.submessages)
            (ok-injective _ (store, response) e₂) in
        (_, sym same, refl, refl, refl)

-- After an `instantiate` and a reply that succeed, where the reply names the token `lp`, the
-- pair reports the assets, the amplification and the fee that it was made with, its own address
-- and `lp`, if addresses are read back as they were.
pub query_pair_info-reply :
    (h : Host) (laws : IsAddress h) (parse_reply : Binary → Option String) (env : Env)
    (msg : InstantiateMsg) (bytes : Binary) (lp : String) {store store' : Option PairInfoRaw}
    {response response' : Response}
    → instantiate h env msg ≡ ok (store, response)
    → parse_reply bytes ≡ some lp
    → reply h parse_reply store (some (some bytes)) ≡ ok (store', response')
    → query_pair_info h store'
      ≡ ok (record {
        asset_infos = msg.asset_infos;
        contract_addr = env.contract_address;
        liquidity_token = lp;
        amplification = msg.amplification;
        fee = msg.fee;
      })
unfolding instantiate reply query_pair_info pair_to_normal load unwrap_data parsed
query_pair_info-reply h laws parse_reply env msg bytes lp {store} {store'} {response} {response'} e
      p r =
    >>=-elim (traverse (info_to_raw h) msg.asset_infos) _ e λ infos i e₁.
      >>=-elim (h.addr_canonicalize env.contract_address) _ e₁ λ address a e₂.
        let saved =
          ap (λ (x : Option PairInfoRaw × Response). x.0) (ok-injective _ (store, response) e₂) in
        let r₁ = rw (← saved) at r in
        let r₂ = rw p at r₁ in
        >>=-elim (h.addr_canonicalize lp) _ r₂ λ token_address t r₃.
          let updated =
            ap (λ (x : Option PairInfoRaw × Response). x.0)
              (ok-injective _ (store', response') r₃) in
          let named = traverse-to_normal h laws msg.asset_infos infos i in
          let here = laws.humanize_lem env.contract_address address a in
          let there = laws.humanize_lem lp token_address t in
          rw (← updated) (rw named (rw here (rw there refl)))
