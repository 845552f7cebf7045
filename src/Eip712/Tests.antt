-- ===== src/Eip712/Tests.antt =====
-- Words and digests of small values, and the theorems at concrete inputs. The hash of the examples is a
-- function that keeps the first 31 bytes and the length: it returns 32 bytes, as Keccak-256 does.
use go_polymarket.Base.{
  ℕ, ◌%◌, ◌≡◌, refl, ◌⊎◌, some, List, [], ◌∷◌, ◌++◌, length, take, replicate, length-take,
  length-append, length-replicate, arith, ok, err,
}
use go_polymarket.Base.Bytes.{Bytes, codes}
use go_polymarket.Base.Int.{pos}
use go_polymarket.Base.Word.{be_bytes, length-be_bytes, int_bytes, byte_len, byte_len_fuel, zeros}
use go_polymarket.Eip712.{
  bad_hex, Word, uint, Domain, separator, struct_hash, domain_parts, add_chain, add_contract,
  type_hash, string, domain_type,
}
use go_polymarket.Eip712.Binding.{Collision, IsWide}
use go_polymarket.Eip712.Domains.{SameDomain, typed_data_binds}
use go_polymarket.Eip712.Fields.{Field}

abbrev toy_hash : Bytes → Bytes
toy_hash b = take 31 (b ++ replicate 31 0) ++ (length b % 256) ∷ []

toy_hash-IsWide : (b : Bytes) → IsWide (toy_hash b)
toy_hash-IsWide b = omega (
  arith,
  length-append (take 31 (b ++ replicate 31 0)) ((length b % 256) ∷ []),
  length-take 31 (b ++ replicate 31 0),
  length-append b (replicate 31 0),
  length-replicate {A = ℕ} 31 0,
)

abbrev twenty : Bytes
twenty = 0xab ∷ replicate 19 0x11

abbrev thirty_two : Bytes
thirty_two = 0xab ∷ replicate 31 0x11

abbrev two_fields : List Field
two_fields = (codes "side", ok (be_bytes 32 1)) ∷ (codes "maker", err bad_hex) ∷ []

-- A domain with a name and a chain id and no contract, as for `ClobAuth`.
abbrev auth_domain : Domain
auth_domain = record {
  name = codes "Auth";
  version = [];
  chain_id = some (pos 137);
  verifying_contract = [];
}

abbrev auth_separator : Word
auth_separator =
    struct_hash toy_hash
      (type_hash toy_hash (domain_type (codes "string name" ∷ codes "uint256 chainId" ∷ [])))
      (string toy_hash (codes "Auth") ∷ be_bytes 32 137 ∷ [])

auth_separator_lem : separator toy_hash auth_domain ≡ ok auth_separator
unfolding separator domain_parts add_chain add_contract uint int_bytes byte_len byte_len_fuel
    be_bytes
auth_separator_lem = refl

typed_data_binds_example :
    (SameDomain auth_domain auth_domain
      × (zeros 32 ≡ zeros 32)
      × (be_bytes 32 1 ∷ [] ≡ be_bytes 32 1 ∷ []))
    ⊎ Collision toy_hash
typed_data_binds_example =
    typed_data_binds toy_hash toy_hash-IsWide auth_domain auth_domain auth_separator auth_separator
      (zeros 32) (zeros 32) (be_bytes 32 1 ∷ []) (be_bytes 32 1 ∷ []) auth_separator_lem
      auth_separator_lem refl refl (length-be_bytes 32 1, tt) (length-be_bytes 32 1, tt) refl
