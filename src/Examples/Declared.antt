-- ===== src/Examples/Declared.antt =====
-- A dataset, an injection, the hardened configuration and a model configuration.
use ai_native_sweng.Prelude.{none}
use ai_native_sweng.Json.Value.{object, Dict, dict, str}
use ai_native_sweng.Models.Factory.{ModelConfig}
use ai_native_sweng.Prelude.{String, [], ◌∷◌, ◌≡◌, refl, ok, err, true, contains, nonempty}
use ai_native_sweng.Json.Value.{pos, items, items_list}
use ai_native_sweng.Json.Convert.{reading, as_strings}
use ai_native_sweng.Models.Errors.{ProviderError, error_of, normalized}
use ai_native_sweng.Evaluation.Dataset.{
  DatasetDescriptor, partitions, all_different, checked_descriptor, descriptor_payload,
  dataset_descriptor,
}
use ai_native_sweng.Evaluation.Dataset.Accepted.{AreDifferent, dataset_descriptor_lem}
use ai_native_sweng.Reliability.Injection.{
  InjectionSpec, checked_spec, spec_payload, injection_spec, injection_error,
}
use ai_native_sweng.Reliability.Injection.Failures.{sdk_failure, injection_spec_lem}
use ai_native_sweng.Examples.Boundary.{strict}

abbrev lab : DatasetDescriptor
lab = record {
  dataset_id = "m08-lab";
  description = "the lab";
  task_ids = "task-1" ∷ "task-2" ∷ [];
  expected_partition = "practice";
}

dataset_descriptor_lem_example :
    (nonempty lab.task_ids ≡ true)
    × AreDifferent lab.task_ids
    × (contains partitions lab.expected_partition ≡ true)
    × (dataset_descriptor strict (descriptor_payload lab) ≡ ok lab)
unfolding dataset_descriptor descriptor_payload checked_descriptor all_different contains reading
    as_strings items items_list
dataset_descriptor_lem_example = dataset_descriptor_lem strict (descriptor_payload lab) lab refl

abbrev overload : InjectionSpec
overload = record { at_call = pos 2; failure = "provider_error_retryable"; boundary = "model" }

injection_spec_lem_example :
    (injection_spec strict (spec_payload overload) ≡ ok overload)
    × ((e : ProviderError) × (injection_error overload.failure ≡ ok e)
        × (e.provider ≡ "injected")
        × (normalized {A = String} (sdk_failure overload.failure) ≡ err (error_of e)))
unfolding injection_spec spec_payload checked_spec contains reading
injection_spec_lem_example = injection_spec_lem strict (spec_payload overload) overload refl

abbrev file : Dict
file = dict (("mode", str "live") ∷ ("live", object (("model", str "m-1") ∷ [])) ∷ [])

abbrev config : ModelConfig
config = record {
  mode = "live";
  provider = "anthropic";
  model = "m-1";
  script_path = none;
  trace_path = none;
  cost_table = record { input_usd_per_mtok = 0; output_usd_per_mtok = 0 };
}
