-- ===== src/Abi/Static.antt =====
-- Argument lists of words, alone and with one array among them.
use go_polymarket.Base.{
  ℕ, suc, ◌+◌, ◌≡◌, refl, ap, ◌∙◌, List, [], ◌∷◌, ◌++◌, append_assoc, append-nil, arith, length,
}
use go_polymarket.Base.Bytes.{Bytes}
use go_polymarket.Eip712.{Word, joined}
use go_polymarket.Abi.{Arg, dynamic_arg, word32, uint64, head_size, lay_out, assemble}

abbrev pub static_words : List Word → List Arg
static_words [] = []
static_words (w ∷ ws) = word32 w ∷ static_words ws

pub length-static_words : (ws : List Word) → length (static_words ws) ≡ length ws
length-static_words [] = refl
length-static_words (w ∷ ws) = ap suc (length-static_words ws)

lay_out-static_words :
    (size : ℕ) (head tail : Bytes) (ws : List Word)
    → lay_out size head tail (static_words ws) ≡ (head ++ joined ws, tail)
unfolding lay_out word32
lay_out-static_words size head tail [] = rw append-nil refl
lay_out-static_words size head tail (w ∷ ws) =
    lay_out-static_words size (head ++ w) tail ws
    ∙ ap (λ (h : Bytes). (h, tail)) (append_assoc head w (joined ws))

pub assemble-static_words : (ws : List Word) → assemble (static_words ws) ≡ joined ws
unfolding assemble
assemble-static_words ws =
    ap (λ (p : Bytes × Bytes). p.0 ++ p.1)
      (lay_out-static_words (head_size 0 (static_words ws)) [] [] ws)
    ∙ append-nil (joined ws)

-- Three words, an array and a word: the array begins at 160.
pub assembled_five :
    (t m c v b : Bytes)
    → length t ≡ 32
    → length m ≡ 32
    → length c ≡ 32
    → length v ≡ 32
    → assemble (word32 t ∷ word32 m ∷ word32 c ∷ dynamic_arg b ∷ word32 v ∷ [])
      ≡ t ++ (m ++ (c ++ (uint64 160 ++ (v ++ b))))
unfolding assemble head_size lay_out word32
assembled_five t m c v b wt wm wc wv =
    ap (λ n. ((((([] ++ t) ++ m) ++ c) ++ uint64 n) ++ v) ++ ([] ++ b))
      {x = 0 + length t + length m + length c + 32 + length v + 0} {y = 160}
      (omega (arith, wt, wm, wc, wv))
    ∙ simp (append_assoc)

-- Three words and an array: it begins at 128.
pub assembled_four :
    (t m c b : Bytes)
    → length t ≡ 32
    → length m ≡ 32
    → length c ≡ 32
    → assemble (word32 t ∷ word32 m ∷ word32 c ∷ dynamic_arg b ∷ [])
      ≡ t ++ (m ++ (c ++ (uint64 128 ++ b)))
unfolding assemble head_size lay_out word32
assembled_four t m c b wt wm wc =
    ap (λ n. (((([] ++ t) ++ m) ++ c) ++ uint64 n) ++ ([] ++ b))
      {x = 0 + length t + length m + length c + 32 + 0} {y = 128} (omega (arith, wt, wm, wc))
    ∙ simp (append_assoc)
