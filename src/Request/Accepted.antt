-- ===== src/Request/Accepted.antt =====
-- Transactions that are accepted from their bytes (types/src/request.rs), and what the executor
-- does with them (ola_core/src/sequencer/batch_executor/mod.rs).
use ola_os.Base.{
  ℕ, ◌%◌, ◌<◌, ◌≤◌, ◌≡◌, ◌⊎◌, refl, sym, ap, ◌∙◌, inl, inr, Option, none, some, List, ◌∷◌, length,
  All, returns, panics, arith, order-cases, less, same, more, subst,
}
use ola_os.Types.Tx.{L2Tx, Transaction, from_l2}
use ola_os.Types.Tx
use ola_os.Convert.Bytes.{IsByte}
use ola_os.Request.{
  Eip712Meta, TransactionRequest, Program, from_request, get_signature, validate_factory_deps,
  factory_deps_of, set_input, or_error, get_nonce_checked,
}
use ola_os.Request.Reading.{
  SerializationTransactionError, parsed, from_address_is_null, to_address_is_null, >>=-eq-parsed,
}
use ola_os.Request.Bytes.{Rlp, into_signed_bytes, decode, from_bytes, parse_transaction_bytes}
use ola_os.Executor.{BlockExeManager}
use ola_os.Sequencer.Resolve.{TxExecutionResult}
use ola_os.Executor
use ola_os.Executor.Tape.{tape_init_info-short}
use ola_os.Executor.Answers.{tx-returns}
use ola_os.Request.Inversion.{into_signed_bytes-inv, second, decode-inv}

-- A request that was read from bytes.
pub record IsRead (bytes : List ℕ) (chain_id : ℕ) (req : TransactionRequest) : Type 0 where
  pub meta : Eip712Meta
  pub from : ℕ
  pub first : ℕ
  pub list : List ℕ
  pub starts : bytes ≡ first ∷ list
  pub signed_kind : (first ≡ 113) ⊎ (first ≡ 16)
  pub has_meta : req.eip712_meta ≡ some meta
  pub has_from : req.from ≡ some from
  pub has_chain : req.chain_id ≡ some chain_id
  pub kind : req.transaction_type ≡ some 16
  pub whole : length req.input % 8 ≡ 0
  pub raw : req.raw ≡ some bytes

from_found :
    (o : Option ℕ) (x : SerializationTransactionError) (a : ℕ)
    → or_error o x ≡ parsed a
    → o ≡ some a
from_found none x a e = cc
from_found (some b) x a e = cc

module _ (rlp : Rlp) (decode_program : List ℕ → Program) (hash_bytes : List ℕ → List ℕ) where
  -- A request is read only from bytes that begin with the number of an EIP-712 or a raw
  -- transaction, never from those of an EIP-1559 transaction. It then is a raw transaction of the
  -- chain, with metadata, a sender, an input of whole words and the bytes themselves.
  pub from_bytes-IsRead :
      (bytes : List ℕ) (chain_id : ℕ) (req : TransactionRequest) (hash : List ℕ)
      → from_bytes rlp decode_program hash_bytes bytes chain_id ≡ parsed (req, hash)
      → IsRead bytes chain_id req
  unfolding from_bytes
  from_bytes-IsRead bytes chain_id req hash e =
      let (q, decoded_q, e1) = >>=-eq-parsed (decode rlp bytes chain_id) _ e in
      let (u1, deps, e2) =
        >>=-eq-parsed (validate_factory_deps decode_program (factory_deps_of q.eip712_meta)) _ e1 in
      let tx = record q { raw = some bytes } in
      let (message, signed, e3) = >>=-eq-parsed (into_signed_bytes tx) _ e2 in
      let (from, found, e4) = >>=-eq-parsed (or_error q.from from_address_is_null) _ e3 in
      let (meta, chain, sender, has_meta, has_chain, has_from, whole) =
        into_signed_bytes-inv tx message signed in
      let (b, list, starts, signed_kind, kind, own_chain) =
        decode-inv rlp bytes chain_id chain q meta decoded_q has_meta has_chain in
      subst (IsRead bytes chain_id) (ap (λ r. r.0) (second (tx, _) (req, hash) e4)) (record {
        meta = meta;
        from = sender;
        first = b;
        list = list;
        starts = starts;
        signed_kind = signed_kind;
        has_meta = has_meta;
        has_from = has_from;
        has_chain = has_chain ∙ ap some own_chain;
        kind = kind;
        whole = whole;
        raw = refl;
      })

  from_request-inv :
      (now : ℕ) (req : TransactionRequest) (t : L2Tx)
      → from_request decode_program now req ≡ parsed t
      → (t.execute.calldata ≡ req.input) × (t.common_data.signature ≡ get_signature req)
  unfolding from_request
  from_request-inv now req t e =
      let (n, small, e1) = >>=-eq-parsed (get_nonce_checked req) _ e in
      let (u1, deps, e2) =
        >>=-eq-parsed (validate_factory_deps decode_program (factory_deps_of req.eip712_meta)) _
          e1 in
      let (to, found, e3) = >>=-eq-parsed (or_error req.to to_address_is_null) _ e2 in
      let built = sym (second _ t e3) in
      (ap (λ q. q.execute.calldata) built, ap (λ q. q.common_data.signature) built)

  module _ {X : Type 0} (manager : BlockExeManager X) where
    short-panics :
        (t : L2Tx) (bytes : List ℕ) (h n : ℕ) (x : X)
        → length t.common_data.signature < 64
        → Executor.tx manager (from_l2 (set_input bytes h t)) n x ≡ panics
    unfolding Executor.tx Executor.tx_of from_l2 set_input Tx.hash Tx.hash_of Tx.l2_hash
    short-panics t bytes h n x short =
        rw (tape_init_info-short (set_input bytes h t).common_data t.execute.calldata h short) refl

    long-returns :
        (t : L2Tx) (bytes : List ℕ) (h n : ℕ) (x : X)
        → All IsByte t.common_data.signature
        → All IsByte t.execute.calldata
        → 64 ≤ length t.common_data.signature
        → length t.execute.calldata % 8 ≡ 0
        → (r : X × TxExecutionResult) × (Executor.tx manager (from_l2 (set_input bytes h t)) n x
            ≡ returns r)
    unfolding from_l2 set_input Tx.l2_hash
    long-returns t bytes h n x signed fits long whole =
        tx-returns manager (from_l2 (set_input bytes h t)) n x (h, refl, signed, fits, long, whole)

    -- A transaction that is accepted from its bytes is executed without a panic exactly if its
    -- signature has at least 64 bytes: its calldata are whole words, and nothing before the
    -- executor looks at the length of the signature.
    pub parse_transaction_bytes-executes :
        (chain_id now : ℕ) (bytes : List ℕ) (t : L2Tx) (hash : List ℕ) (h n : ℕ) (x : X)
        → parse_transaction_bytes rlp decode_program hash_bytes chain_id now bytes
          ≡ parsed (t, hash)
        → All IsByte t.common_data.signature
        → All IsByte t.execute.calldata
        → let run_tx = Executor.tx manager (from_l2 (set_input bytes h t)) n x in
          ((64 ≤ length t.common_data.signature)
            × (r : X × TxExecutionResult) × (run_tx ≡ returns r))
          ⊎ ((length t.common_data.signature < 64) × (run_tx ≡ panics))
    unfolding parse_transaction_bytes
    parse_transaction_bytes-executes chain_id now bytes t hash h n x e signed fits =
        let ((req, req_hash), is_read, e1) =
          >>=-eq-parsed (from_bytes rlp decode_program hash_bytes bytes chain_id) _ e in
        let (t', requested, e2) = >>=-eq-parsed (from_request decode_program now req) _ e1 in
        let one = ap (λ r. r.0) (second (t', req_hash) (t, hash) e2) in
        let (calldata, signature) = from_request-inv now req t' requested in
        let whole : length t.execute.calldata % 8 ≡ 0 =
          ap (λ q. length q.execute.calldata % 8) (sym one)
          ∙ ap (λ bs. length bs % 8) calldata
          ∙ (from_bytes-IsRead bytes chain_id req req_hash is_read).whole in
        elim (order-cases (length t.common_data.signature) 64) [
          | less short ↦ inr (short, short-panics t bytes h n x short)
          | same equal ↦
              let (r, ran) = long-returns t bytes h n x signed fits (omega arith) whole in
              inl (omega arith, r, ran)
          | more long ↦
              let (r, ran) = long-returns t bytes h n x signed fits (omega arith) whole in
              inl (omega arith, r, ran)
        ]
