-- ===== src/Executor/Tests.antt =====
-- The executor on a machine that counts its calls and fails the second one.
use ola_os.Base.{
  ℕ, suc, ◌%◌, ◌<◌, ◌≤◌, ◌≡◌, ◌≢◌, ◌⊎◌, refl, List, [], ◌∷◌, some, Option, none, true, false,
  returns, panics, length, replicate, arith, ltb,
}
use ola_os.Types.Tx.{Transaction, TransactionType, L2TxCommonData, l2}
use ola_os.Types.Tx
use ola_os.Executor.{BlockExeManager, BatchResult, ok, error, OlaTapeInitInfo, tape_init_info}
use ola_os.Executor.Tape.{IsTapeOf, tape_init_info-cases}
use ola_os.Executor.Commands.{Command, execute_tx, finish, finish_batch, send, serve, run}
use ola_os.Executor.Answers.{IsPrepared, Serves, run-Serves}

abbrev nothing : BatchResult
nothing = record { storage_access_logs = []; events = []; block_tip_queries = [] }

abbrev machine : BlockExeManager ℕ
machine = record {
  invoke = λ info x. (
    suc x,
    elim (ltb x 1) [
      | true ↦ ok (record { storage_access_logs = []; events = [] })
      | false ↦ error (110 ∷ 111 ∷ [])
    ],
  );
  finish_batch = λ x. some nothing;
}

abbrev some_machine : ℕ → Option ℕ
some_machine network = some 0

abbrev signed : L2TxCommonData
signed = record {
  nonce = 3;
  initiator_address = 77;
  signature = replicate 64 7;
  transaction_type = TransactionType.ola_raw_transaction;
  input = some (record { hash = 99; bytes = [] });
}

abbrev tx : Transaction
tx = record {
  common_data = l2 signed;
  execute = record { contract_address = 5; calldata = replicate 8 2; factory_deps = none };
  received_timestamp_ms = 0;
}

abbrev calldata : List ℕ
calldata = replicate 8 2

tape_init_info-cases_example :
    (((length signed.signature < 64) ⊎ (length calldata % 8 ≢ 0))
      × (tape_init_info signed calldata 99 ≡ panics))
    ⊎ ((64 ≤ length signed.signature)
        × (info : OlaTapeInitInfo) × (tape_init_info signed calldata 99 ≡ returns info)
        × IsTapeOf signed calldata 99 info)
tape_init_info-cases_example = tape_init_info-cases signed calldata 99 (ground arith) (ground arith)

abbrev commands : List Command
commands = execute_tx tx 0 true ∷ execute_tx tx 1 true ∷ finish 2 true ∷ execute_tx tx 3 true ∷ []

tx-IsPrepared : (n : ℕ) → IsPrepared (execute_tx tx n true)
unfolding Tx.l2_hash
tx-IsPrepared n = ((99, refl, ground arith, ground arith, omega arith, omega arith), refl)

run-Serves_example : Serves machine 0 commands (run machine (some 1027) some_machine commands)
run-Serves_example =
    run-Serves machine (some 1027) some_machine 1027 0 commands refl refl
      (tx-IsPrepared 0, (tx-IsPrepared 1, (refl, (tx-IsPrepared 3, tt))))

-- An answer that nobody waits for.
unheard : serve machine (finish 0 false ∷ []) 0 ≡ panics
unfolding serve finish_batch send
unheard = refl
