-- ===== src/Tracing/Recorder/Success.antt =====
-- When `emit` does not raise, and what it then leaves in the trace file.
use ai_native_sweng.Prelude.{
  suc, String, Bool, true, false, [], ◌∷◌, ◌++◌, ◌≡◌, refl, ok, contains, if◌then◌else◌,
}
use ai_native_sweng.Tracing.Event.{checked_event, event_types, to_dict}
use ai_native_sweng.Tracing.Redaction.{redact_event, redact_keys}
use ai_native_sweng.Tracing.Recorder.{Recorder, Call, event_id, event_of, emit}

checked_event-ok :
    (r : Recorder) (c : Call)
    → contains event_types c.event_type ≡ true
    → checked_event (event_of r c) ≡ ok (event_of r c)
unfolding checked_event event_of contains
checked_event-ok r c h = rw h

-- A call with no sensitive keys, written out.
abbrev pub plain_call : String → String → Call → Call
plain_call t component c = record c { event_type = t; component = component; sensitive_keys = [] }

-- what a successful call leaves
unfoldable pub emitted : Call → Recorder → Recorder
emitted c r =
    if r.recording
    then record r { seq = suc r.seq; lines = r.lines ++ to_dict (event_of r c) ∷ [] }
    else record r { seq = suc r.seq }

if_pair :
    {A B : Type 0} (b : Bool) (x : A) (y z : B)
    → ◌≡◌ {A = A × B} (if b then (x, y) else (x, z)) (x, if b then y else z)
if_pair true x y z = refl
if_pair false x y z = refl

-- A call of a known event type with no sensitive keys does not raise: it returns this number's id
-- and appends this one line, if there is a writer.
pub emit-ok :
    (t component : String) (c : Call) (r : Recorder)
    → contains event_types t ≡ true
    → emit (plain_call t component c) r
      ≡ (ok (event_id r.prefix r.seq), emitted (plain_call t component c) r)
unfolding emit emitted redact_event redact_keys
emit-ok t component c r h =
    rw (checked_event-ok r (plain_call t component c) h) (if_pair r.recording _ _ _)
