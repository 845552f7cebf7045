-- ===== src/Abi/Tests.antt =====
-- Calldata of small arguments, and the theorems at concrete inputs.
use go_polymarket.Base.{◌^◌, ◌<◌, ◌≡◌, refl, [], ◌∷◌, ◌++◌, length, arith}
use go_polymarket.Base.Bytes.{codes}
use go_polymarket.Base.Word.{be_bytes}
use go_polymarket.Abi.{Arg, word32, byte_string, assemble, uint64, uint64_loop, head_size, lay_out}
use go_polymarket.Abi.Layout.{read_at, value, widths, assemble_layout}

abbrev flag : Arg
flag = word32 (be_bytes 32 1)

abbrev text : Arg
text = byte_string (codes "hello")

-- `f(bool,bytes,bool)`: three words of head, then the text's length and its padded bytes.
flag-text-flag : length (assemble (flag ∷ text ∷ flag ∷ [])) ≡ 160
unfolding assemble head_size lay_out word32 byte_string uint64 uint64_loop be_bytes
flag-text-flag = refl

short : length (assemble ((flag ∷ []) ++ text ∷ flag ∷ [])) < 2 ^ 64
short = omega (arith, flag-text-flag)

assemble_layout_example :
    read_at
      (assemble ((flag ∷ []) ++ text ∷ flag ∷ []))
      (widths (flag ∷ []))
      text.dynamic
      (length (value text))
    ≡ value text
assemble_layout_example = assemble_layout (flag ∷ []) (flag ∷ []) text short
