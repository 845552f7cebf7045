-- ===== src/Protocol.antt =====
-- protocol.go: the contracts of the two chains, the names and versions of the signing domains, and the zero
-- values of an order's optional fields. The hosts stand with the rate limits, in RateLimit/Rules.antt.
use go_polymarket.Base.{ℕ, Option, none, some, [], ◌==◌, if◌then◌else◌}
use go_polymarket.Base.Bytes.{Bytes, codes}
use go_polymarket.Base.Int.{ℤ, pos, negsuc}

abbrev pub chain_polygon : ℕ
chain_polygon = 137

abbrev pub chain_amoy : ℕ
chain_amoy = 80002

pub record Contracts : Type 0 where
  pub exchange : Bytes
  pub neg_risk_exchange : Bytes
  pub exchange_v2 : Bytes
  pub neg_risk_exchange_v2 : Bytes
  pub exchange_v3 : Bytes
  pub neg_risk_adapter : Bytes
  pub collateral : Bytes
  pub conditional_tokens : Bytes
  pub proxy_factory : Bytes
  pub safe_factory : Bytes
  pub safe_multisend : Bytes
  pub relay_hub : Bytes
  pub deposit_wallet_factory : Bytes
  pub deposit_wallet_beacon : Bytes
  pub deposit_wallet_implementation : Bytes

abbrev pub polygon_contracts : Contracts
polygon_contracts = record {
  exchange = codes "0x4bFb41d5B3570DeFd03C39a9A4D8dE6Bd8B8982E";
  neg_risk_exchange = codes "0xC5d563A36AE78145C45a50134d48A1215220f80a";
  exchange_v2 = codes "0xE111180000d2663C0091e4f400237545B87B996B";
  neg_risk_exchange_v2 = codes "0xe2222d279d744050d28e00520010520000310F59";
  exchange_v3 = codes "0xe3333700cA9d93003F00f0F71f8515005F6c00Aa";
  neg_risk_adapter = codes "0xd91E80cF2E7be2e162c6513ceD06f1dD0dA35296";
  collateral = codes "0x2791Bca1f2de4661ED88A30C99A7a9449Aa84174";
  conditional_tokens = codes "0x4D97DCd97eC945f40cF65F87097ACe5EA0476045";
  proxy_factory = codes "0xaB45c5A4B0c941a2F231C04C3f49182e1A254052";
  safe_factory = codes "0xaacFeEa03eb1561C4e67d661e40682Bd20E3541b";
  safe_multisend = codes "0xA238CBeb142c10Ef7Ad8442C6D1f9E89e07e7761";
  relay_hub = codes "0xD216153c06E857cD7f72665E0aF1d7D82172F494";
  deposit_wallet_factory = codes "0x00000000000Fb5C9ADea0298D729A0CB3823Cc07";
  deposit_wallet_beacon = codes "0x7A18EDfe055488A3128f01F563e5B479D92ffc3a";
  deposit_wallet_implementation = codes "0x58CA52ebe0DadfdF531Cde7062e76746de4Db1eB";
}

abbrev pub amoy_contracts : Contracts
amoy_contracts = record {
  exchange = codes "0xdFE02Eb6733538f8Ea35D585af8DE5958AD99E40";
  neg_risk_exchange = codes "0xC5d563A36AE78145C45a50134d48A1215220f80a";
  exchange_v2 = codes "0xE111180000d2663C0091e4f400237545B87B996B";
  neg_risk_exchange_v2 = codes "0xe2222d279d744050d28e00520010520000310F59";
  exchange_v3 = codes "0x9fE6e61422AdB6F610d8597F9684b16912D50C3D";
  neg_risk_adapter = codes "0xd91E80cF2E7be2e162c6513ceD06f1dD0dA35296";
  collateral = codes "0xC011a7E12a19f7B1f670d46F03B03f3342E82DFB";
  conditional_tokens = codes "0x69308FB512518e39F9b16112fA8d994F4e2Bf8bB";
  proxy_factory = [];
  safe_factory = codes "0xaacFeEa03eb1561C4e67d661e40682Bd20E3541b";
  safe_multisend = codes "0xA238CBeb142c10Ef7Ad8442C6D1f9E89e07e7761";
  relay_hub = [];
  deposit_wallet_factory = codes "0x00000000000Fb5C9ADea0298D729A0CB3823Cc07";
  deposit_wallet_beacon = codes "0x7A18EDfe055488A3128f01F563e5B479D92ffc3a";
  deposit_wallet_implementation = codes "0x50a88fE9a441cB4c9c2aD6A2207CE2795C7D7Fbd";
}

-- `none` for a chain that is not known.
unfoldable pub contracts_for : ℤ → Option Contracts
contracts_for (negsuc n) = none
contracts_for (pos n) =
    if n == chain_polygon
    then some polygon_contracts
    else if n == chain_amoy
    then some amoy_contracts
    else none

abbrev pub exchange_domain_name : Bytes
exchange_domain_name = codes "Polymarket CTF Exchange"

abbrev pub exchange_v1_version : Bytes
exchange_v1_version = codes "1"

abbrev pub exchange_v2_version : Bytes
exchange_v2_version = codes "2"

abbrev pub exchange_v3_version : Bytes
exchange_v3_version = codes "3"

abbrev pub clob_auth_domain_name : Bytes
clob_auth_domain_name = codes "ClobAuthDomain"

abbrev pub clob_auth_domain_version : Bytes
clob_auth_domain_version = codes "1"

abbrev pub clob_auth_message : Bytes
clob_auth_message = codes "This message attests that I control the given wallet"

abbrev pub clob_auth_type_string : Bytes
clob_auth_type_string =
    codes "ClobAuth(address address,string timestamp,uint256 nonce,string message)"

abbrev pub order_type_string : Bytes
order_type_string =
    codes
      "Order(uint256 salt,address maker,address signer,uint256 tokenId,uint256 makerAmount,uint256 takerAmount,uint8 side,uint8 signatureType,uint256 timestamp,bytes32 metadata,bytes32 builder)"

abbrev pub zero_address : Bytes
zero_address = codes "0x0000000000000000000000000000000000000000"

abbrev pub zero_bytes32 : Bytes
zero_bytes32 = codes "0x0000000000000000000000000000000000000000000000000000000000000000"
