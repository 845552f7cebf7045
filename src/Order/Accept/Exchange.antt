-- ===== src/Order/Accept/Exchange.antt =====
-- The contracts of the known chains are addresses that the hash of a domain accepts.
use go_polymarket.Base.{
  ℕ, ◌^◌, ◌<◌, ◌≡◌, refl, sym, subst, Bool, true, false, Option, none, some, arith, ◌==◌, ==_iff,
  if◌then◌else◌, Bool-cases, inl, inr, Result, ok, err, is_ok,
}
use go_polymarket.Base.Bytes.{Bytes}
use go_polymarket.Base.Int.{ℤ, pos, negsuc, eqb_ℤ}
use go_polymarket.Base.Hex.{decode_hex, trim_0x}
use go_polymarket.Eip712.{decode_hex_of, uint, address}
use go_polymarket.Eip712.Words.{uint_fits}
use mathlib.Core.Option.{some-injective}
use go_polymarket.Protocol.{
  exchange_v1_version, exchange_v2_version, exchange_v3_version, Contracts, contracts_for,
  polygon_contracts, amoy_contracts,
}
use go_polymarket.Order.{OrderError, exchange_for, or_unknown_chain, unsupported_version}

-- The contracts that an exchange version may name are addresses.
unfoldable pub AreAddresses : Contracts → Type 0
AreAddresses c =
    (is_ok (address c.exchange) ≡ true)
    × (is_ok (address c.neg_risk_exchange) ≡ true)
    × (is_ok (address c.exchange_v2) ≡ true)
    × (is_ok (address c.neg_risk_exchange_v2) ≡ true)
    × (is_ok (address c.exchange_v3) ≡ true)

polygon-AreAddresses : AreAddresses polygon_contracts
unfolding AreAddresses address decode_hex_of decode_hex trim_0x
polygon-AreAddresses = (refl, refl, refl, refl, refl)

amoy-AreAddresses : AreAddresses amoy_contracts
unfolding AreAddresses address decode_hex_of decode_hex trim_0x
amoy-AreAddresses = (refl, refl, refl, refl, refl)

pub uint-is_ok : (n : ℕ) → n < 2 ^ 256 → is_ok (uint (pos n)) ≡ true
uint-is_ok n h = rw (uint_fits n h) refl

pub or_unknown_chain-ok :
    (z : ℤ) (o : Option Contracts) (c : Contracts) → or_unknown_chain z o ≡ ok c → o ≡ some c
or_unknown_chain-ok z none c e = absurd (cc)
or_unknown_chain-ok z (some k) c e = cc

pub known :
    (z : ℤ) (c : Contracts) → contracts_for z ≡ some c → AreAddresses c × (is_ok (uint z) ≡ true)
unfolding contracts_for
known (negsuc n) c e = absurd (cc)
known (pos n) c e = elim (Bool-cases (n == 137)) [
  | inl polygon ↦ (
    subst AreAddresses (some-injective polygon_contracts c (simp (polygon) at e))
        polygon-AreAddresses,
    uint-is_ok n (omega (arith, (==_iff n 137).0 polygon)),
  )
  | inr other ↦ elim (Bool-cases (n == 80002)) [
    | inl amoy ↦ (
      subst AreAddresses (some-injective amoy_contracts c (simp (other, amoy) at e))
          amoy-AreAddresses,
      uint-is_ok n (omega (arith, (==_iff n 80002).0 amoy)),
    )
    | inr neither ↦ absurd (let stuck = simp (other, neither) at e in cc)
  ]
]

pub exchange_for-address :
    (c : Contracts) (v : ℤ) (n : Bool) (p : Bytes × Bytes)
    → AreAddresses c
    → exchange_for c v n ≡ ok p
    → is_ok (address p.1) ≡ true
unfolding exchange_for AreAddresses
exchange_for-address c v n p h e = step (eqb_ℤ v (pos 1)) (eqb_ℤ v (pos 2)) (eqb_ℤ v (pos 3)) n e
  where
    chosen :
        (t k : Bytes)
        → Path (Result OrderError (Bytes × Bytes)) (ok (t, k)) (ok p)
        → is_ok (address k) ≡ true
        → is_ok (address p.1) ≡ true
    chosen t k made good = let same : k ≡ p.1 = cc in rw (sym same) good

    step :
        (a b d m : Bool)
        → (if a
            then ok (exchange_v1_version, if m then c.neg_risk_exchange else c.exchange)
            else if b
            then ok (exchange_v2_version, if m then c.neg_risk_exchange_v2 else c.exchange_v2)
            else if d
            then ok (exchange_v3_version, c.exchange_v3)
            else err (unsupported_version v))
          ≡ ok p
        → is_ok (address p.1) ≡ true
    step true b d true made = chosen exchange_v1_version _ made h.1
    step true b d false made = chosen exchange_v1_version _ made h.0
    step false true d true made = chosen exchange_v2_version _ made h.3
    step false true d false made = chosen exchange_v2_version _ made h.2
    step false false true m made = chosen exchange_v3_version _ made h.4
    step false false false m made = absurd (cc)
