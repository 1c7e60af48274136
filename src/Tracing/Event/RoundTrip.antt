-- ===== src/Tracing/Event/RoundTrip.antt =====
-- A trace line is read back as the event that was written.
use ai_native_sweng.Prelude.{◌≡◌, ok, arith, ◌∙◌}
use ai_native_sweng.Json.Value.{items_list-items}
use ai_native_sweng.Json.Convert.{Builtins, reading}
use ai_native_sweng.Tracing.Event.{TraceEvent, checked_event, to_dict, from_dict}

module _ (py : Builtins) where
  reading_back : (e : TraceEvent) → from_dict py (to_dict e) ≡ checked_event e
  unfolding from_dict to_dict reading
  reading_back e = simp items_list-items

  checked_event_idem : (e e' : TraceEvent) → checked_event e ≡ ok e' → checked_event e' ≡ ok e'
  unfolding checked_event
  checked_event_idem e e' h = ground arith

  -- An event that its constructor accepts is read back from its trace line unchanged.
  pub from_dict-to_dict :
      (e : TraceEvent) → checked_event e ≡ ok e → from_dict py (to_dict e) ≡ ok e
  from_dict-to_dict e h = reading_back e ∙ h
