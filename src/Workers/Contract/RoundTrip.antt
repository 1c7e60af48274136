-- ===== src/Workers/Contract/RoundTrip.antt =====
-- Contracts and invocation records are read back as they were written.
use ai_native_sweng.Prelude.{◌≡◌, ok}
use ai_native_sweng.Json.Convert.{Builtins, as_strings-strings, reading}
use ai_native_sweng.Workers.Contract.{
  ContextRequirements, WorkerContract, WorkerInvocationRecord, requirements_payload,
  context_requirements, contract_payload, worker_contract, invocation_record_payload,
  invocation_record,
}

module _ (py : Builtins) where
  -- Reading what was written gives it back.
  pub context_requirements-requirements_payload :
      (r : ContextRequirements) → context_requirements py (requirements_payload r) ≡ ok r
  unfolding context_requirements requirements_payload reading
  context_requirements-requirements_payload r = simp (as_strings-strings py)

  -- A worker contract is read back from its payload unchanged.
  pub worker_contract-contract_payload :
      (r : WorkerContract) → worker_contract py (contract_payload r) ≡ ok r
  unfolding worker_contract contract_payload reading
  worker_contract-contract_payload r = simp (as_strings-strings py)

  -- An invocation record is read back from its payload unchanged.
  pub invocation_record-invocation_record_payload :
      (r : WorkerInvocationRecord) → invocation_record py (invocation_record_payload r) ≡ ok r
  unfolding invocation_record invocation_record_payload reading
  invocation_record-invocation_record_payload r = simp (as_strings-strings py)
