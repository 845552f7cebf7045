-- ===== src/TypedData/Named.antt =====
-- The words of named fields, each with its result: all the words, or the first error.
use go_polymarket.Base.{
  ◌≡◌, refl, sym, ◌∙◌, subst, List, [], ◌∷◌, Result, ok, err, ◌>>=◌, map_err, bind_inversion, All,
  map_err-ok,
}
use go_polymarket.Base.Bytes.{Bytes}
use go_polymarket.Base.Int.{ℤ}
use go_polymarket.Eip712.{Error, Word, uint, address, bytes32}
use go_polymarket.Eip712.Words.{uint-IsWord, address-IsWord, bytes32-IsWord}
use go_polymarket.Eip712.Binding.{IsWide}
use go_polymarket.TypedData.Types.{TypedError, in_field, word}

-- All the words, or the first error under its field's name.
abbrev pub named_words : List (Bytes × Result TypedError Word) → Result TypedError (List Word)
named_words [] = ok []
named_words ((name, r) ∷ fields) =
    map_err (in_field name) r >>= λ w. named_words fields >>= λ ws. ok (w ∷ ws)

abbrev pub results : List (Bytes × Result TypedError Word) → List (Result TypedError Word)
results [] = []
results (f ∷ fields) = f.1 ∷ results fields

abbrev pub all_ok : List Word → List (Result TypedError Word)
all_ok [] = []
all_ok (w ∷ ws) = ok w ∷ all_ok ws

pub named_words-ok :
    (fields : List (Bytes × Result TypedError Word)) (ws : List Word)
    → named_words fields ≡ ok ws
    → results fields ≡ all_ok ws
named_words-ok [] ws e = let same : Path (List Word) [] ws = cc in rw (sym same) refl
named_words-ok ((name, r) ∷ fields) ws e =
    let (w, first, more) =
      bind_inversion (map_err (in_field name) r) (λ w. named_words fields >>= λ ws. ok (w ∷ ws))
        e in
    let (vs, rest, made) = bind_inversion (named_words fields) (λ ws. ok (w ∷ ws)) more in
    let one = map_err-ok (in_field name) r w first in
    let tail = named_words-ok fields vs rest in
    let all : w ∷ vs ≡ ws = cc in
    subst (λ vs. results ((name, r) ∷ fields) ≡ all_ok vs) all (rw (one, tail) refl)

-- A result that is a word of 32 bytes if there is one.
abbrev pub WideIfOk : Result TypedError Word → Type 0
WideIfOk (err x) = Unit
WideIfOk (ok w) = IsWide w

pub wide_of :
    (r : Result Error Word) → ((w : Word) → r ≡ ok w → IsWide w) → WideIfOk (map_err word r)
wide_of (err x) h = tt
wide_of (ok w) h = h w refl

pub uint-wide : (z : ℤ) → WideIfOk (map_err word (uint z))
uint-wide z = wide_of (uint z) (λ w e. (uint-IsWord z w e).1)

pub address-wide : (s : Bytes) → WideIfOk (map_err word (address s))
address-wide s = wide_of (address s) (λ w e. (address-IsWord s w e).1)

pub bytes32-wide : (s : Bytes) → WideIfOk (map_err word (bytes32 s))
bytes32-wide s = wide_of (bytes32 s) (λ w e. (bytes32-IsWord s w e).1)

pub all_ok-IsWide :
    (rs : List (Result TypedError Word)) (ws : List Word)
    → rs ≡ all_ok ws
    → All WideIfOk rs
    → All IsWide ws
all_ok-IsWide rs [] e h = tt
all_ok-IsWide [] (w ∷ ws) e h = absurd (cc)
all_ok-IsWide (r ∷ rs) (w ∷ ws) e h =
    let first : r ≡ ok w = cc in
    let rest : rs ≡ all_ok ws = cc in (subst WideIfOk first h.0, all_ok-IsWide rs ws rest h.1)

-- Both are the same word.
abbrev pub BothAre : Result TypedError Word → Result TypedError Word → Type 0
BothAre q r = (w : Word) × (q ≡ ok w) × (r ≡ ok w)

abbrev pub AllBoth : List (Result TypedError Word) → List (Result TypedError Word) → Type 0
AllBoth (q ∷ qs) (r ∷ rs) = BothAre q r × AllBoth qs rs
AllBoth qs rs = Unit

pub all_agree :
    (qs rs : List (Result TypedError Word)) (ws : List Word)
    → qs ≡ all_ok ws
    → rs ≡ all_ok ws
    → AllBoth qs rs
all_agree [] rs ws eq er = tt
all_agree (q ∷ qs) [] ws eq er = tt
all_agree (q ∷ qs) (r ∷ rs) [] eq er = absurd (cc)
all_agree (q ∷ qs) (r ∷ rs) (w ∷ ws) eq er = ((w, cc, cc), all_agree qs rs ws (cc) (cc))

pub agree_word : (q r : Result Error Word) → BothAre (map_err word q) (map_err word r) → q ≡ r
agree_word q r (w, eq, er) = map_err-ok word q w eq ∙ sym (map_err-ok word r w er)
