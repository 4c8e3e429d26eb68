-- ===== src/Request/Inversion.antt =====
-- What follows when a request is decoded and can be signed (types/src/request.rs).
use ola_os.Base.{
  ℕ, ◌+◌, ◌%◌, ◌≡◌, ◌⊎◌, refl, sym, ap, ◌∙◌, inl, inr, Bool, true, false, not, ◌||◌, Option, none,
  some, List, [], ◌∷◌, length, expect, assert, arith, ltb, ◌==◌, is_some, Bool-cases,
}
use ola_os.Base.Words.{u64_mod}
use ola_os.Request.{Eip712Meta, TransactionRequest}
use ola_os.Request.Reading.{
  SerializationTransactionError, Parse, parsed, refused, unknown_transaction_format, run, ensure,
  try, to_option, >>=-eq-parsed,
}
use ola_os.Request.Bytes.{
  Rlp, into_signed_bytes, decode_fields, decode_1559, decode_meta, decode_raw, decode,
  check_access_list, eq_option, input_is_whole,
}

assert-true : (b : Bool) (u : Unit {0}) → run (assert b) ≡ parsed u → b ≡ true
assert-true true u e = refl
assert-true false u e = cc

ensure-true :
    (b : Bool) (x : SerializationTransactionError) (u : Unit {0}) → ensure b x ≡ parsed u → b ≡ true
ensure-true true x u e = refl
ensure-true false x u e = cc

expect-some : {A : Type 0} (o : Option A) (a : A) → run (expect o) ≡ parsed a → o ≡ some a
expect-some none a e = cc
expect-some (some b) a e = cc

-- A message can be signed only with metadata, whole words of input and a chain.
pub into_signed_bytes-inv :
    (req : TransactionRequest) (message : List ℕ)
    → into_signed_bytes req ≡ parsed message
    → (meta : Eip712Meta) × (chain : ℕ) × (from : ℕ) × (req.eip712_meta ≡ some meta)
      × (req.chain_id ≡ some chain)
      × (req.from ≡ some from)
      × (length req.input % 8 ≡ 0)
unfolding into_signed_bytes
into_signed_bytes-inv req message e =
    let (meta, has_meta, e1) = >>=-eq-parsed (run (expect req.eip712_meta)) _ e in
    let (u1, whole, e2) = >>=-eq-parsed (run (assert (length req.input % 8 == 0))) _ e1 in
    let (u2, whole_paymaster, e3) =
      >>=-eq-parsed (run (assert (input_is_whole meta.paymaster_params))) _ e2 in
    let (chain, has_chain, e4) = >>=-eq-parsed (run (expect req.chain_id)) _ e3 in
    let (u3, small, e5) = >>=-eq-parsed (run (assert (ltb req.nonce u64_mod))) _ e4 in
    let (from, has_from, e6) = >>=-eq-parsed (run (expect req.from)) _ e5 in
    (
      meta,
      chain,
      from,
      expect-some req.eip712_meta meta has_meta,
      expect-some req.chain_id chain has_chain,
      expect-some req.from from has_from,
      ground (arith, assert-true (length req.input % 8 == 0) u1 whole),
    )

pub second : {A : Type 0} (a b : A) → ◌≡◌ {A = Parse A} (parsed a) (parsed b) → a ≡ b
second a b e = cc

module _ (rlp : Rlp) where
  decode_fields-inv :
      (list : List ℕ) (offset signature_at : ℕ) (chain : Option ℕ) (kind : ℕ)
      (raw : Option (List ℕ)) (rest : Parse (Option Eip712Meta × Option ℕ))
      (req : TransactionRequest)
      → decode_fields rlp list offset signature_at chain kind raw rest ≡ parsed req
      → (m : Option Eip712Meta × Option ℕ) × (rest ≡ parsed m)
        × (req.eip712_meta ≡ m.0)
        × (req.transaction_type ≡ some kind)
        × (req.chain_id ≡ chain)
  unfolding decode_fields
  decode_fields-inv list offset signature_at chain kind raw rest req e =
      let (v, is_v, e1) = >>=-eq-parsed (try (rlp.u64_at list signature_at)) _ e in
      let (r, is_r, e2) = >>=-eq-parsed (try (rlp.u256_at list (signature_at + 1))) _ e1 in
      let (s, is_s, e3) = >>=-eq-parsed (try (rlp.u256_at list (signature_at + 2))) _ e2 in
      let (m, is_m, e4) = >>=-eq-parsed rest _ e3 in
      let (n, is_n, e5) = >>=-eq-parsed (try (rlp.u256_at list offset)) _ e4 in
      let (input, is_input, e6) = >>=-eq-parsed (try (rlp.bytes_at list (offset + 2))) _ e5 in
      let built = sym (second _ req e6) in
      (
        m,
        is_m,
        ap (λ q. q.eip712_meta) built,
        ap (λ q. q.transaction_type) built,
        ap (λ q. q.chain_id) built,
      )

  decode_1559-inv :
      (list : List ℕ) (chain_id : ℕ) (req : TransactionRequest)
      → decode_1559 rlp list chain_id ≡ parsed req
      → req.eip712_meta ≡ none
  unfolding decode_1559
  decode_1559-inv list chain_id req e =
      let (n, counted, e1) = >>=-eq-parsed (try (rlp.item_count list)) _ e in
      let (u1, twelve, e2) = >>=-eq-parsed (ensure (n == 12) _) _ e1 in
      let (u2, no_list, e3) = >>=-eq-parsed (check_access_list rlp list) _ e2 in
      let (u3, same_chain, e4) =
        >>=-eq-parsed (ensure (eq_option (to_option (rlp.u16_at list 0)) chain_id) _) _ e3 in
      let (m, is_m, meta, kind, chain) =
        decode_fields-inv list 1 9 _ 2 (some list) (parsed (none, none)) req e4 in
      meta ∙ sym (ap (λ q. q.0) (second (none, none) m is_m))

  chain_checked :
      (found : Option ℕ) (chain_id c : ℕ)
      → (eq_option found chain_id || not (is_some found)) ≡ true
      → found ≡ some c
      → c ≡ chain_id
  chain_checked none chain_id c checked e = cc
  chain_checked (some d) chain_id c checked e = ground arith

  decode_raw-inv :
      (list : List ℕ) (chain_id c : ℕ) (req : TransactionRequest)
      → decode_raw rlp list chain_id ≡ parsed req
      → req.chain_id ≡ some c
      → (req.transaction_type ≡ some 16) × (c ≡ chain_id)
  unfolding decode_raw
  decode_raw-inv list chain_id c req e has_chain =
      let found = to_option (rlp.u16_at list 6) in
      let (n, counted, e1) = >>=-eq-parsed (try (rlp.item_count list)) _ e in
      let (u1, eleven, e2) = >>=-eq-parsed (ensure (n == 11) _) _ e1 in
      let (u2, same_chain, e3) =
        >>=-eq-parsed (ensure (eq_option found chain_id || not (is_some found)) _) _ e2 in
      let (m, is_m, meta, kind, chain) =
        decode_fields-inv list 0 3 found 16 none (decode_meta rlp list) req e3 in
      (kind, chain_checked found chain_id c (ensure-true _ _ u2 same_chain) (sym chain ∙ has_chain))

  pub decode-inv :
      (bytes : List ℕ) (chain_id c : ℕ) (req : TransactionRequest) (meta : Eip712Meta)
      → decode rlp bytes chain_id ≡ parsed req
      → req.eip712_meta ≡ some meta
      → req.chain_id ≡ some c
      → (b : ℕ) × (list : List ℕ) × (bytes ≡ b ∷ list)
        × ((b ≡ 113) ⊎ (b ≡ 16))
        × (req.transaction_type ≡ some 16)
        × (c ≡ chain_id)
  unfolding decode
  decode-inv [] chain_id c req meta e has_meta has_chain = cc
  decode-inv (b ∷ list) chain_id c req meta e has_meta has_chain = elim (Bool-cases (b == 2)) [
    | inl two ↦ absurd (unsigned (sym has_meta ∙ decode_1559-inv list chain_id req (rw two at e)))
    | inr other ↦ elim (Bool-cases (b == 113 || b == 16)) [
      | inl raw ↦
          let (kind, same_chain) =
            decode_raw-inv list chain_id c req (rw (other, raw) at e) has_chain in
          (b, list, refl, ground (arith, raw), kind, same_chain)
      | inr unknown ↦ absurd (refuses (rw (other, unknown) at e))
    ]
  ]
    where
      unsigned : some meta ≡ none → ⊥
      unsigned x = cc

      refuses :
          ◌≡◌ {A = Parse TransactionRequest} (refused unknown_transaction_format) (parsed req) → ⊥
      refuses x = cc
