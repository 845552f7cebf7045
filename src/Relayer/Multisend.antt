-- ===== src/Relayer/Multisend.antt =====
-- The packed batch, walked as the multisend contract walks it: each length leads to the next entry.
use go_polymarket.Base.{
  ℕ, zero, suc, ◌+◌, ◌^◌, ◌<◌, ◌≤◌, ◌≡◌, refl, sym, ap, ◌∙◌, subst, List, [], ◌∷◌, ◌++◌, arith,
  length, length-append, take, drop, drop-length-append, length-drop, piece, append_assoc, Result,
  ok, map_err, bind_inversion, map_err-ok,
}
use go_polymarket.Base.Bytes.{Bytes}
use go_polymarket.Base.Int.{pos}
use go_polymarket.Base.Word.{be_value, be_bytes, be_value-be_bytes, length-be_bytes}
use go_polymarket.Eip712.{Word, address}
use go_polymarket.Eip712.Words.{address-IsWord}
use go_polymarket.Abi.{packed_address, packed_uint, bad_address}
use go_polymarket.Abi.Words.{packed_uint_exact}
use go_polymarket.Relayer.{Call, RelayError, Decoded, decode, in_call, bad_packing, safe_code}
use go_polymarket.Relayer.Safe.{pack_call, pack_multisend_from, pack_multisend}

-- An entry as the contract sees it.
pub record Entry : Type 0 where
  pub entry_operation : ℕ
  pub entry_to : Bytes
  pub entry_value : ℕ
  pub entry_data : Bytes

-- The walk, on fuel for the entries. Behind the operation stand 20 bytes, two words and the calldata.
abbrev pub walk : ℕ → Bytes → List Entry
walk zero b = []
walk (suc fuel) [] = []
walk (suc fuel) (operation ∷ b) =
    let size = be_value (take 32 (drop 52 b)) in
    record {
      entry_operation = operation;
      entry_to = take 20 b;
      entry_value = be_value (take 32 (drop 20 b));
      entry_data = take size (drop 84 b);
    }
    ∷ walk fuel (drop (84 + size) b)

-- What entry stands for a call: the parts that `decode` reads.
abbrev pub IsEntry : Call → Entry → Type 0
IsEntry call e =
    (d : Decoded) × (w : Word) × (decode call ≡ ok d)
    × (address d.target ≡ ok w)
    × (d.amount ≡ pos e.entry_value)
    × (e.entry_operation ≡ safe_code call.operation)
    × (e.entry_to ≡ drop 12 w)
    × (e.entry_data ≡ d.payload)

-- One entry for each call, in order.
abbrev pub AreEntries : List Call → List Entry → Type 0
AreEntries [] [] = Unit
AreEntries (call ∷ calls) (e ∷ es) = IsEntry call e × AreEntries calls es
AreEntries _ _ = ⊥

abbrev entry_of : ℕ → Bytes → ℕ → Bytes → Entry
entry_of op to v x = record { entry_operation = op; entry_to = to; entry_value = v; entry_data = x }

walk-entry :
    (fuel op n : ℕ) (a x rest : Bytes)
    → length a ≡ 20
    → n < 256 ^ 32
    → length x < 256 ^ 32
    → walk (suc fuel) (op ∷ a ++ (be_bytes 32 n ++ (be_bytes 32 (length x) ++ (x ++ rest))))
      ≡ entry_of op a n x ∷ walk fuel rest
walk-entry fuel op n a x rest wa hn hx =
    let m = be_bytes 32 n in
    let s = be_bytes 32 (length x) in
    let b = a ++ (m ++ (s ++ (x ++ rest))) in
    let wm = length-be_bytes 32 n in
    let ws = length-be_bytes 32 (length x) in
    let to : take 20 b ≡ a = piece [] a (m ++ (s ++ (x ++ rest))) 0 20 refl (sym wa) in
    let v : be_value (take 32 (drop 20 b)) ≡ n =
      ap be_value (piece a m (s ++ (x ++ rest)) 20 32 (sym wa) (sym wm))
      ∙ be_value-be_bytes 32 n hn in
    let size : be_value (take 32 (drop 52 b)) ≡ length x =
      ap be_value (
        subst (λ t. take 32 (drop 52 t) ≡ s) (append_assoc a m (s ++ (x ++ rest)))
          (piece (a ++ m) s (x ++ rest) 52 32 (omega (arith, length-append a m, wa, wm)) (sym ws)))
      ∙ be_value-be_bytes 32 (length x) hx in
    let front : length (a ++ (m ++ s)) ≡ 84 =
      omega (arith, length-append a (m ++ s), length-append m s, wa, wm, ws) in
    let whole : (a ++ (m ++ s)) ++ (x ++ rest) ≡ b = simp (append_assoc) in
    let data_at : take (length x) (drop 84 b) ≡ x =
      subst (λ t. take (length x) (drop 84 t) ≡ x) whole
        (piece (a ++ (m ++ s)) x rest 84 (length x) (sym front) refl) in
    let after : drop (84 + length x) b ≡ rest =
      let l = (a ++ (m ++ s)) ++ x in
      subst (λ t. drop (84 + length x) t ≡ rest) (append_assoc (a ++ (m ++ s)) x rest ∙ whole)
        (ap (λ k. drop k (l ++ rest)) {x = 84 + length x} {y = length l}
            (omega (arith, front, length-append (a ++ (m ++ s)) x))
          ∙ drop-length-append l rest) in
    rw (size, to, v, data_at, after) refl

-- What a packed call consists of.
abbrev Packed : Call → Bytes → Type 0
Packed call p =
    (n : ℕ) × (a : Bytes) × (x : Bytes) × (length a ≡ 20)
    × (n < 256 ^ 32)
    × (length x < 256 ^ 32)
    × (p ≡ safe_code call.operation ∷ a ++ (be_bytes 32 n ++ (be_bytes 32 (length x) ++ x)))
    × IsEntry call (entry_of (safe_code call.operation) a n x)

packed_address-ok :
    (s b : Bytes) → packed_address s ≡ ok b → (w : Word) × (address s ≡ ok w) × (b ≡ drop 12 w)
unfolding packed_address
packed_address-ok s b e =
    let (w, ew, made) = bind_inversion (map_err bad_address (address s)) _ e in
    (w, map_err-ok bad_address (address s) w ew, cc)

pos_of : {m n : ℕ} → pos m ≡ pos n → m ≡ n
pos_of e = cc

shape_of :
    (op : ℕ) (a x p : Bytes) {m m' s s' : Bytes}
    → Path (Result RelayError Bytes) (ok (op ∷ a ++ (m ++ (s ++ x)))) (ok p)
    → m ≡ m'
    → s ≡ s'
    → p ≡ op ∷ a ++ (m' ++ (s' ++ x))
shape_of op a x p made em es = cc

pack_call-ok : (i : ℕ) (call : Call) (p : Bytes) → pack_call i call ≡ ok p → Packed call p
unfolding pack_call
pack_call-ok i call p e =
    let (d, ed, e₁) = bind_inversion (map_err (in_call i) (decode call)) _ e in
    let (a, ea, e₂) = bind_inversion (map_err bad_packing (packed_address d.target)) _ e₁ in
    let (m, em, e₃) =
      bind_inversion (map_err (in_call i) (map_err bad_packing (packed_uint d.amount 32))) _ e₂ in
    let (s, es, made) =
      bind_inversion (map_err bad_packing (packed_uint (pos (length d.payload)) 32)) _ e₃ in
    let (w, ew, aw) =
      packed_address-ok d.target a (map_err-ok bad_packing (packed_address d.target) a ea) in
    let (n, dn, hn, mn) = (packed_uint_exact d.amount 32 m).0 (
      map_err-ok bad_packing (packed_uint d.amount 32) m
        (map_err-ok (in_call i) (map_err bad_packing (packed_uint d.amount 32)) m em)) in
    let (k, dk, hk, sk) =
      (packed_uint_exact (pos (length d.payload)) 32 s).0
        (map_err-ok bad_packing (packed_uint (pos (length d.payload)) 32) s es) in
    let size = pos_of dk in
    (
      n,
      a,
      d.payload,
      rw aw (omega (arith, length-drop 12 w, (address-IsWord d.target w ew).1)),
      hn,
      rw size hk,
      shape_of _ _ _ p made mn (sk ∙ ap (be_bytes 32) (sym size)),
      (d, w, map_err-ok (in_call i) (decode call) d ed, ew, dn, refl, aw, refl),
    )

walk-pack_multisend_from :
    (i : ℕ) (calls : List Call) (b : Bytes) (fuel : ℕ)
    → pack_multisend_from i calls ≡ ok b
    → length b ≤ fuel
    → AreEntries calls (walk fuel b)
unfolding pack_multisend_from
walk-pack_multisend_from i [] b fuel e h = nothing fuel b (cc)
  where
    nothing : (fuel : ℕ) (b : Bytes) → [] ≡ b → AreEntries [] (walk fuel b)
    nothing zero b e = tt
    nothing (suc fuel) [] e = tt
    nothing (suc fuel) (x ∷ b) e = absurd (cc)
walk-pack_multisend_from i (call ∷ calls) b zero e h =
    let (p, ep, e₁) = bind_inversion (pack_call i call) _ e in
    let (rest, er, made) = bind_inversion (pack_multisend_from (suc i) calls) _ e₁ in
    let (n, a, x, _, _, _, shape, _) = pack_call-ok i call p ep in
    let same : p ++ rest ≡ b = cc in
    absurd (omega (arith, h, ap length same, ap length shape, length-append p rest))
walk-pack_multisend_from i (call ∷ calls) b (suc fuel) e h =
    let (p, ep, e₁) = bind_inversion (pack_call i call) _ e in
    let (rest, er, made) = bind_inversion (pack_multisend_from (suc i) calls) _ e₁ in
    let (n, a, x, wa, hn, hx, shape, entry) = pack_call-ok i call p ep in
    let op = safe_code call.operation in
    let same : p ++ rest ≡ b = cc in
    let whole : b ≡ op ∷ a ++ (be_bytes 32 n ++ (be_bytes 32 (length x) ++ (x ++ rest))) =
      sym same ∙ ap (λ t. t ++ rest) shape ∙ simp (append_assoc) in
    let more =
      walk-pack_multisend_from (suc i) calls rest fuel er
        (omega (arith, h, ap length same, ap length shape, length-append p rest)) in
    subst (AreEntries (call ∷ calls))
      (sym (ap (walk (suc fuel)) whole ∙ walk-entry fuel op n a x rest wa hn hx)) (entry, more)

-- A packed batch, walked by its lengths, gives one entry for each call, in order: its operation, the address of its
-- target, its value and its calldata. The fuel of the walk is the number of bytes.
pub walk-pack_multisend :
    (calls : List Call) (b : Bytes)
    → pack_multisend calls ≡ ok b
    → AreEntries calls (walk (length b) b)
unfolding pack_multisend
walk-pack_multisend calls b e = walk-pack_multisend_from 0 calls b (length b) e (omega arith)
