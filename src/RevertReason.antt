-- ===== src/RevertReason.antt =====
-- Why the virtual machine rejects a transaction (vm/src/errors). Strings are their UTF-8 bytes; the
-- hexadecimal encoding of the `hex` crate is a parameter.
use Prim.Native.Char.{code}
use Prim.Native.String.{String}
use ola_os.Base.{ℕ, List, [], ◌∷◌, ◌++◌}

-- The bytes of an ASCII literal.
abbrev pub codes : String → List ℕ
codes String.[] = []
codes (String.◌∷◌ c s) = code c ∷ codes s

pub data VmRevertReason : Type 0 where
  general : List ℕ → List ℕ → VmRevertReason
  inner_tx_error vm_error : VmRevertReason
  unknown : List ℕ → List ℕ → VmRevertReason

pub data TxRevertReason : Type 0 where
  eth_call tx_reverted validation_failed paymaster_validation_failed :
      VmRevertReason → TxRevertReason
  pre_paymaster_preparation_failed pay_for_tx_failed : VmRevertReason → TxRevertReason
  failed_to_mark_factory_dependencies failed_to_charge_fee : VmRevertReason → TxRevertReason
  from_is_not_an_account inner_error : TxRevertReason
  unknown_reason : VmRevertReason → TxRevertReason
  unexpected_vm_behavior : List ℕ → TxRevertReason
  bootloader_out_of_gas too_big_gas_limit not_enough_gas_provided : TxRevertReason
  missing_invocation_limit_reached : TxRevertReason

module _ (hex_encode : List ℕ → List ℕ) where
  -- `Display` of a `VmRevertReason`.
  unfoldable pub vm_reason_to_string : VmRevertReason → List ℕ
  vm_reason_to_string (general msg bytes) = msg
  vm_reason_to_string vm_error = codes "VM Error"
  vm_reason_to_string inner_tx_error = codes "Bootloader-based tx failed"
  vm_reason_to_string (unknown function_selector bytes) =
      codes "Error function_selector = 0x"
      ++ hex_encode function_selector
      ++ codes ", data = 0x"
      ++ hex_encode bytes

  -- `Display` of a `TxRevertReason`.
  unfoldable pub reason_to_string : TxRevertReason → List ℕ
  unfolding vm_reason_to_string
  reason_to_string (eth_call reason) = vm_reason_to_string reason
  reason_to_string (tx_reverted reason) = vm_reason_to_string reason
  reason_to_string (validation_failed reason) =
      codes "Account validation error: " ++ vm_reason_to_string reason
  reason_to_string (failed_to_charge_fee reason) =
      codes "Failed to charge fee: " ++ vm_reason_to_string reason
  reason_to_string from_is_not_an_account = codes "Sender is not an account"
  reason_to_string inner_error = codes "Bootloader-based tx failed"
  reason_to_string (paymaster_validation_failed reason) =
      codes "Paymaster validation error: " ++ vm_reason_to_string reason
  reason_to_string (pre_paymaster_preparation_failed reason) =
      codes "Pre-paymaster preparation error: " ++ vm_reason_to_string reason
  reason_to_string (unknown_reason reason) = codes "Unknown reason: " ++ vm_reason_to_string reason
  reason_to_string (unexpected_vm_behavior problem) =
      codes "virtual machine entered unexpected state. Please contact developers and provide "
      ++ codes "transaction details that caused this error. Error description: "
      ++ problem
  reason_to_string bootloader_out_of_gas = codes "Bootloader out of gas"
  reason_to_string not_enough_gas_provided =
      codes "Bootloader did not have enough gas to start the transaction"
  reason_to_string (failed_to_mark_factory_dependencies reason) =
      codes "Failed to mark factory dependencies: " ++ vm_reason_to_string reason
  reason_to_string (pay_for_tx_failed reason) =
      codes "Failed to pay for the transaction: " ++ vm_reason_to_string reason
  reason_to_string too_big_gas_limit =
      codes "Transaction has a too big ergs limit and will not be executed by the server"
  reason_to_string missing_invocation_limit_reached =
      codes "Tx produced too much cold storage accesses"
