-- ===== src/Tracing/Recorder/Numbering.antt =====
-- Whatever a recorder is asked to emit, the lines that it writes carry pairwise distinct event ids.
use ai_native_sweng.Prelude.{
  sym, ◌∙◌, ℕ, suc, ◌≤◌, String, Bool, true, false, List, [], ◌∷◌, ◌++◌, ◌≡◌, ◌≢◌, refl, ap, map,
  Result, ok, err, arith, All, concat, decimal4-injective, if◌then◌else◌,
}
use mathlib.Core.Path.{subst}
use text.Mathlib.TextLemmas.{append_cancel_left, append_cancel_right}
use ai_native_sweng.Json.Value.{Json, str, Dict}
use ai_native_sweng.Json.Convert.{get, reading}
use ai_native_sweng.Tracing.Event.{TraceEvent, checked_event, to_dict}
use ai_native_sweng.Tracing.Redaction.{redact_event, redact_keys}
use ai_native_sweng.Tracing.Recorder.{
  Recorder, Call, event_id, event_of, written, constructed, append_line, emit,
}

event_id-injective : (prefix : String) (m n : ℕ) → event_id prefix m ≡ event_id prefix n → m ≡ n
unfolding event_id concat
event_id-injective prefix m n e =
    decimal4-injective m n
      (append_cancel_right _ _ "" (append_cancel_left "-" _ _ (append_cancel_left prefix _ _ e)))

str-injective : {s t : String} → str s ≡ str t → s ≡ t
str-injective e = cc

-- the event id of a line
pub line_id : Dict → Json
line_id d = get d "event_id"

unfoldable pub Distinct : List Json → Type 0
Distinct [] = Unit
Distinct (x ∷ xs) = All (λ y. x ≢ y) xs × Distinct xs

-- emit, call after call; a call that raises is passed over
pub emit_all : List Call → Recorder → Recorder
emit_all [] r = r
emit_all (c ∷ cs) r = emit_all cs (emit c r).1

record IsNumbered (r : Recorder) : Type 0 where
  distinct : Distinct (map line_id r.lines)
  fresh : All (λ y. (n : ℕ) → r.seq ≤ n → y ≢ str (event_id r.prefix n)) (map line_id r.lines)

module _ (prefix : String) (k : ℕ) (d : Dict) (named : line_id d ≡ str (event_id prefix k)) where
  fresh-snoc :
      (lines : List Dict)
      → All (λ y. (n : ℕ) → k ≤ n → y ≢ str (event_id prefix n)) (map line_id lines)
      → All (λ y. (n : ℕ) → suc k ≤ n → y ≢ str (event_id prefix n)) (map line_id (lines ++ d ∷ []))
  fresh-snoc [] h = ((λ n le e. later n le (str-injective (sym named ∙ e))), tt)
    where
      later : (n : ℕ) → suc k ≤ n → event_id prefix k ≡ event_id prefix n → ⊥
      later n le e = absurd (omega (arith, event_id-injective prefix k n e))
  fresh-snoc (x ∷ xs) h = ((λ n le. h.0 n (omega arith)), fresh-snoc xs h.1)

  other-snoc :
      (x : Json) (lines : List Dict)
      → ((n : ℕ) → k ≤ n → x ≢ str (event_id prefix n))
      → All (λ y. x ≢ y) (map line_id lines)
      → All (λ y. x ≢ y) (map line_id (lines ++ d ∷ []))
  other-snoc x [] f h = ((λ e. f k (omega arith) (e ∙ named)), tt)
  other-snoc x (y ∷ lines) f h = (h.0, other-snoc x lines f h.1)

  Distinct-snoc :
      (lines : List Dict)
      → All (λ y. (n : ℕ) → k ≤ n → y ≢ str (event_id prefix n)) (map line_id lines)
      → Distinct (map line_id lines)
      → Distinct (map line_id (lines ++ d ∷ []))
  unfolding Distinct
  Distinct-snoc [] f h = (tt, tt)
  Distinct-snoc (x ∷ lines) f h =
      (other-snoc (line_id x) lines f.0 h.0, Distinct-snoc lines f.1 h.1)

fresh-suc :
    (prefix : String) (k : ℕ) (lines : List Dict)
    → All (λ y. (n : ℕ) → k ≤ n → y ≢ str (event_id prefix n)) (map line_id lines)
    → All (λ y. (n : ℕ) → suc k ≤ n → y ≢ str (event_id prefix n)) (map line_id lines)
fresh-suc prefix k [] h = tt
fresh-suc prefix k (x ∷ xs) h = ((λ n le. h.0 n (omega arith)), fresh-suc prefix k xs h.1)

-- What one call leaves: the next number, and at most one line, which has this call's number.
data Emitted (r r' : Recorder) : Type 0 where
  silent : r' ≡ record r { seq = suc r.seq } → Emitted r r'
  wrote :
      (d : Dict)
      → line_id d ≡ str (event_id r.prefix r.seq)
      → r' ≡ record r { seq = suc r.seq; lines = r.lines ++ d ∷ [] }
      → Emitted r r'

event_id-redact_event : (e e' : TraceEvent) → redact_event e ≡ ok e' → e'.event_id ≡ e.event_id
unfolding redact_event
event_id-redact_event e e' h = of_keys e.sensitive_keys h
  where
    of_keys : (keys : List Json) → redact_keys keys e ≡ ok e' → e'.event_id ≡ e.event_id
    of_keys [] p = ground arith
    of_keys (k ∷ ks) p = ground arith

line_id-to_dict : (e : TraceEvent) → line_id (to_dict e) ≡ str e.event_id
unfolding line_id to_dict reading
line_id-to_dict e = refl

event_id-checked_event :
    (r : Recorder) (c : Call) (e : TraceEvent)
    → checked_event (event_of r c) ≡ ok e
    → e.event_id ≡ event_id r.prefix r.seq
unfolding checked_event event_of
event_id-checked_event r c e h = ground arith

emit-Emitted : (c : Call) (r : Recorder) → Emitted r (emit c r).1
unfolding emit
emit-Emitted c r = recording r.recording
  where
    redacted_case :
        (e : TraceEvent)
        → e.event_id ≡ event_id r.prefix r.seq
        → (m : Result TraceEvent) → redact_event e ≡ m
        → Emitted r
            (written (event_id r.prefix r.seq) (append_line m (record r { seq = suc r.seq }))).1
    redacted_case e named (ok e') h =
        wrote (to_dict e') (line_id-to_dict e' ∙ ap str (event_id-redact_event e e' h ∙ named)) refl
    redacted_case e named (err x) h = silent refl

    checked_case :
        (m : Result TraceEvent)
        → checked_event (event_of r c) ≡ m
        → Emitted r (constructed (event_id r.prefix r.seq) m (record r { seq = suc r.seq })).1
    checked_case (ok e) h = redacted_case e (event_id-checked_event r c e h) (redact_event e) refl
    checked_case (err x) h = silent refl

    recording :
        (b : Bool)
        → Emitted r
            (if b
              then constructed
                  (event_id r.prefix r.seq)
                  (checked_event (event_of r c))
                  (record r { seq = suc r.seq })
              else (ok (event_id r.prefix r.seq), record r { seq = suc r.seq })).1
    recording true = checked_case (checked_event (event_of r c)) refl
    recording false = silent refl

emit-IsNumbered : {r r' : Recorder} → Emitted r r' → IsNumbered r → IsNumbered r'
emit-IsNumbered {r} {r'} (silent e) h =
    subst IsNumbered (sym e)
      (record { distinct = h.distinct; fresh = fresh-suc r.prefix r.seq r.lines h.fresh })
emit-IsNumbered {r} {r'} (wrote d named e) h = subst IsNumbered (sym e) (record {
  distinct = Distinct-snoc r.prefix r.seq d named r.lines h.fresh h.distinct;
  fresh = fresh-snoc r.prefix r.seq d named r.lines h.fresh;
})

emit_all-IsNumbered : (cs : List Call) (r : Recorder) → IsNumbered r → IsNumbered (emit_all cs r)
unfolding emit_all
emit_all-IsNumbered [] r h = h
emit_all-IsNumbered (c ∷ cs) r h =
    emit_all-IsNumbered cs (emit c r).1 (emit-IsNumbered (emit-Emitted c r) h)

-- From a recorder with an empty trace file, whatever is emitted (calls that raise included), the
-- lines that reach the file carry pairwise distinct event ids.
pub emit_all-Distinct :
    (cs : List Call) (r : Recorder) → r.lines ≡ [] → Distinct (map line_id (emit_all cs r).lines)
unfolding Distinct
emit_all-Distinct cs r h = (emit_all-IsNumbered cs r start).distinct
  where
    start : IsNumbered r
    start =
        subst (λ l. IsNumbered (record r { lines = l })) (sym h)
          (record { distinct = tt; fresh = tt })
