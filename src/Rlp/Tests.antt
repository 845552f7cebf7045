-- ===== src/Rlp/Tests.antt =====
-- Encodings of the format's own examples, and the theorems at concrete inputs.
use go_polymarket.Base.{◌≡◌, refl, some, List, [], ◌∷◌, ◌++◌, arith, ok}
use go_polymarket.Base.Bytes.{codes}
use go_polymarket.Base.Int.{pos}
use go_polymarket.Base.Word.{int_bytes, byte_len, byte_len_fuel, be_bytes}
use go_polymarket.Rlp.{header, string, list, uint}
use go_polymarket.Rlp.Decode.{Kind, split}
use go_polymarket.Rlp.RoundTrip.{split-list}
use go_polymarket.Rlp.Canonical.{Part, leaf, branch}

dog : string (codes "dog") ≡ 0x83 ∷ codes "dog"
unfolding string header
dog = refl

cat_dog :
    list (string (codes "cat") ∷ string (codes "dog") ∷ [])
    ≡ 0xc8 ∷ 0x83 ∷ codes "cat" ++ 0x83 ∷ codes "dog"
unfolding list string header
cat_dog = refl

thousand : uint (some (pos 1024)) ≡ ok (0x82 ∷ 4 ∷ 0 ∷ [])
unfolding uint string header int_bytes byte_len byte_len_fuel be_bytes
thousand = refl

split-list_example :
    split (list (codes "a" ∷ codes "b" ∷ []) ++ codes "!")
    ≡ some ((Kind.seq, codes "ab"), codes "!")
split-list_example = split-list (codes "a" ∷ codes "b" ∷ []) (codes "!") (omega arith)

abbrev some_parts : List Part
some_parts = leaf (codes "cat") ∷ branch [] ∷ leaf [] ∷ []
