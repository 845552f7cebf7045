-- ===== src/Relayer/Calldata.antt =====
-- The factory's calldata, against the general ABI encoder: `encodeProxyCalls` lays out by hand what the encoder
-- makes of a list of tuples.
use go_polymarket.Base.{
  ℕ, suc, ◌+◌, ◌*◌, ◌≡◌, refl, sym, ap, ◌∙◌, List, [], ◌∷◌, ◌++◌, arith, length, append_assoc,
  Result, ok, ◌>>=◌, map_err, bind_congr, bind_congr_ok, bind_inversion, bind_assoc, length-append,
  map_err-ok,
}
use go_polymarket.Base.Bytes.{Bytes, codes}
use go_polymarket.Eip712.{Word, address, uint, uint8}
use go_polymarket.Eip712.Words.{address-IsWord, uint-IsWord}
use go_polymarket.Abi.{
  Arg, dynamic_arg, word32, byte_string, tuple, list, any_dynamic, head_size, lay_out, assemble,
  encode_args_call, encode, uint64, padding, selector,
}
use go_polymarket.Relayer.{Call, RelayError, Decoded, decode, in_call, bad_word, proxy_code}
use go_polymarket.Abi.Static.{assembled_four}
use go_polymarket.Relayer.Proxy.{proxy_element, proxy_elements, proxy_heads, encode_proxy_calls}

-- A call as the tuple (uint8,address,uint256,bytes).
abbrev pub call_tuple : Call → Decoded → Word → Word → Arg
call_tuple call d a amount = tuple (
    word32 (uint8 (proxy_code call.operation))
    ∷ word32 a
    ∷ word32 amount
    ∷ byte_string d.payload
    ∷ [])

-- The tuple of call `i`, or the error that its parts have.
abbrev pub tuple_of : ℕ → Call → Result RelayError Arg
tuple_of i call = map_err (in_call i) (decode call) >>= λ d.
    map_err bad_word (address d.target) >>= λ a.
    map_err (in_call i) (map_err bad_word (uint d.amount)) >>= λ amount.
    ok (call_tuple call d a amount)

abbrev pub tuples_of : ℕ → List Call → Result RelayError (List Arg)
tuples_of i [] = ok []
tuples_of i (call ∷ calls) = tuple_of i call >>= λ t. tuples_of (suc i) calls >>= λ ts. ok (t ∷ ts)

-- The element that the code writes.
abbrev element_of : Call → Decoded → Word → Word → Bytes
element_of call d a amount =
    encode (uint8 (proxy_code call.operation) ∷ a ∷ amount ∷ uint64 128 ∷ [])
    ++ (uint64 (length d.payload) ++ (d.payload ++ padding (length d.payload)))

element-tuple :
    (call : Call) (d : Decoded) (a amount : Word)
    → length a ≡ 32
    → length amount ≡ 32
    → call_tuple call d a amount ≡ dynamic_arg (element_of call d a amount)
unfolding tuple any_dynamic byte_string encode word32
element-tuple call d a amount wa wm = ap dynamic_arg (
    assembled_four (uint8 (proxy_code call.operation)) a amount
      (uint64 (length d.payload) ++ d.payload ++ padding (length d.payload)) (unfold uint8 in refl)
      wa wm
    ∙ simp (append_assoc))

elements_args : List Bytes → List Arg
elements_args [] = []
elements_args (e ∷ es) = dynamic_arg e ∷ elements_args es

-- Each tuple is the dynamic argument of the element.
tuple-element :
    (i : ℕ) (call : Call) → tuple_of i call ≡ (proxy_element i call >>= λ e. ok (dynamic_arg e))
unfolding proxy_element
tuple-element i call =
    bind_congr_ok (map_err (in_call i) (decode call)) _ _ (λ d ed.
      bind_congr_ok (map_err bad_word (address d.target)) _ _ (λ a ea.
        bind_congr_ok (map_err (in_call i) (map_err bad_word (uint d.amount))) _ _ (λ m em. ap ok (
          element-tuple call d a m
            (address-IsWord d.target a (map_err-ok bad_word (address d.target) a ea)).1
            (uint-IsWord d.amount m (
              map_err-ok bad_word (uint d.amount) m
                (map_err-ok (in_call i) (map_err bad_word (uint d.amount)) m em))).1))
        ∙ sym (
            bind_assoc (map_err (in_call i) (map_err bad_word (uint d.amount)))
              (λ m. ok (element_of call d a m)) (λ e. ok (dynamic_arg e))))
      ∙ sym (bind_assoc (map_err bad_word (address d.target)) _ (λ e. ok (dynamic_arg e))))
    ∙ sym (bind_assoc (map_err (in_call i) (decode call)) _ (λ e. ok (dynamic_arg e)))

tuples-elements :
    (i : ℕ) (calls : List Call)
    → tuples_of i calls ≡ (proxy_elements i calls >>= λ es. ok (elements_args es))
unfolding proxy_elements elements_args
tuples-elements i [] = refl
tuples-elements i (call ∷ calls) =
    rw (tuple-element i call, tuples-elements (suc i) calls)
      (bind_assoc (proxy_element i call) _ _
        ∙ bind_congr (proxy_element i call) _ _ (λ e.
          bind_assoc (proxy_elements (suc i) calls) _ _
          ∙ sym (bind_assoc (proxy_elements (suc i) calls) _ _))
        ∙ sym (bind_assoc (proxy_element i call) _ _))

head_size-elements : (n : ℕ) (es : List Bytes) → head_size n (elements_args es) ≡ n + 32 * length es
unfolding head_size elements_args
head_size-elements n [] = omega arith
head_size-elements n (e ∷ es) = omega (arith, head_size-elements (n + 32) es)

-- The loop of `encodeProxyCalls` is the encoder's second loop: its offset is the head's size and the body so far.
lay_out-elements :
    (size offset : ℕ) (head body : Bytes) (es : List Bytes)
    → offset ≡ size + length body
    → lay_out size head body (elements_args es) ≡ proxy_heads offset head body es
unfolding lay_out elements_args proxy_heads
lay_out-elements size offset head body [] h = refl
lay_out-elements size offset head body (e ∷ es) h = rw (sym h) (
    lay_out-elements size (offset + length e) (head ++ uint64 offset) (body ++ e) es
      (omega (arith, h, length-append body e)))

length-elements_args : (es : List Bytes) → length (elements_args es) ≡ length es
unfolding elements_args
length-elements_args [] = refl
length-elements_args (e ∷ es) = ap suc (length-elements_args es)

length-proxy_elements :
    (i : ℕ) (calls : List Call) (es : List Bytes)
    → proxy_elements i calls ≡ ok es
    → length es ≡ length calls
unfolding proxy_elements
length-proxy_elements i [] es e = ap length {x = es} {y = []} (cc)
length-proxy_elements i (call ∷ calls) es e =
    let (x, _, e₁) = bind_inversion (proxy_element i call) _ e in
    let (xs, rest, made) = bind_inversion (proxy_elements (suc i) calls) _ e₁ in
    let same : x ∷ xs ≡ es = cc in
    omega (arith, ap length same, length-proxy_elements (suc i) calls xs rest)

assemble-elements :
    (es : List Bytes)
    → assemble (elements_args es)
      ≡ (proxy_heads (32 * length es) [] [] es).0 ++ (proxy_heads (32 * length es) [] [] es).1
unfolding assemble
assemble-elements es =
    ap (λ (p : Bytes × Bytes). p.0 ++ p.1)
      (lay_out-elements (head_size 0 (elements_args es)) (32 * length es) [] [] es
        (omega (arith, head_size-elements 0 es)))

-- One dynamic argument: its offset is 32.
assemble-one : (b : Bytes) → assemble (dynamic_arg b ∷ []) ≡ uint64 32 ++ b
unfolding assemble head_size lay_out
assemble-one b = refl

abbrev pub proxy_signature : Bytes
proxy_signature = codes "proxy((uint8,address,uint256,bytes)[])"

module _ (keccak : Bytes → Bytes) where
  -- For one call or more, the calldata of the factory is the ABI encoding of the call of `proxy` with the list of
  -- the calls' tuples, and fails with the first error of a call.
  pub encode_proxy_calls-list :
      (call : Call) (calls : List Call)
      → encode_proxy_calls keccak (call ∷ calls) ≡ (
          tuples_of 0 (call ∷ calls) >>= λ ts.
          ok (encode_args_call keccak proxy_signature (list ts ∷ [])))
  unfolding encode_proxy_calls encode_args_call list
  encode_proxy_calls-list call calls =
      bind_congr_ok (proxy_elements 0 (call ∷ calls)) _ _ (λ es ee.
        let count = length-proxy_elements 0 (call ∷ calls) es ee in
        ap (λ b. ok (selector keccak proxy_signature ++ b))
          (ap
              (λ n.
                uint64 32
                ++ (uint64 n
                    ++ ((proxy_heads (32 * length es) [] [] es).0
                        ++ (proxy_heads (32 * length es) [] [] es).1)))
              (sym count ∙ sym (length-elements_args es))
            ∙ ap (λ b. uint64 32 ++ (uint64 (length (elements_args es)) ++ b))
                (sym (assemble-elements es))
            ∙ sym
                (assemble-one (uint64 (length (elements_args es)) ++ assemble (elements_args es)))))
      ∙ sym
          (rw (tuples-elements 0 (call ∷ calls)) (bind_assoc (proxy_elements 0 (call ∷ calls)) _ _))
