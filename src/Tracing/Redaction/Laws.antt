-- ===== src/Tracing/Redaction/Laws.antt =====
-- No sensitive value is left in what the writer writes, and nothing else is changed.
use ai_native_sweng.Prelude.{
  true, false, List, [], ◌∷◌, ◌≡◌, refl, ◌⊎◌, inl, inr, ap, arith, Bool-cases, ok, ◌↔◌,
}
use mathlib.Core.Path.{ap₂, subst}
use ai_native_sweng.Json.Value.{
  Json, null, bool, int, float, str, arr, obj, Items, nil, cons, Dict, end, field,
}
use ai_native_sweng.Tracing.Event.{TraceEvent}
use ai_native_sweng.Tracing.Redaction.{
  redacted, holds, redact_value, redact_items, redact_dict, redact_keys, redact_event,
}

-- A value in which, at any depth, every sensitive key holds the mark `[REDACTED]`.
unfoldable mutual
  pub IsRedacted : List Json → Json → Type 0
  IsRedacted keys null = Unit
  IsRedacted keys (bool b) = Unit
  IsRedacted keys (int n) = Unit
  IsRedacted keys (float f) = Unit
  IsRedacted keys (str s) = Unit
  IsRedacted keys (arr xs) = AreRedacted keys xs
  IsRedacted keys (obj d) = IsRedactedDict keys d

  pub AreRedacted : List Json → Items → Type 0
  AreRedacted keys nil = Unit
  AreRedacted keys (cons x xs) = IsRedacted keys x × AreRedacted keys xs

  pub IsRedactedDict : List Json → Dict → Type 0
  IsRedactedDict keys end = Unit
  IsRedactedDict keys (field k v rest) =
      ((holds keys k ≡ true) × (v ≡ redacted) ⊎ (holds keys k ≡ false) × IsRedacted keys v)
      × IsRedactedDict keys rest

mutual
  unfolding IsRedacted redact_value

  value_IsRedacted : (keys : List Json) (v : Json) → IsRedacted keys (redact_value keys v)
  value_IsRedacted keys null = tt
  value_IsRedacted keys (bool b) = tt
  value_IsRedacted keys (int n) = tt
  value_IsRedacted keys (float f) = tt
  value_IsRedacted keys (str s) = tt
  value_IsRedacted keys (arr xs) = items_AreRedacted keys xs
  value_IsRedacted keys (obj d) = dict_IsRedacted keys d

  items_AreRedacted : (keys : List Json) (xs : Items) → AreRedacted keys (redact_items keys xs)
  items_AreRedacted keys nil = tt
  items_AreRedacted keys (cons x xs) = (value_IsRedacted keys x, items_AreRedacted keys xs)

  dict_IsRedacted : (keys : List Json) (d : Dict) → IsRedactedDict keys (redact_dict keys d)
  dict_IsRedacted keys end = tt
  dict_IsRedacted keys (field k v rest) = (
    elim (Bool-cases (holds keys k)) [
      | inl h ↦ rw h (inl (refl, refl))
      | inr h ↦ rw h (inr (refl, value_IsRedacted keys v))
    ],
    dict_IsRedacted keys rest,
  )

mutual
  unfolding IsRedacted redact_value

  value_unchanged : (keys : List Json) (v : Json) → IsRedacted keys v → redact_value keys v ≡ v
  value_unchanged keys null h = refl
  value_unchanged keys (bool b) h = refl
  value_unchanged keys (int n) h = refl
  value_unchanged keys (float f) h = refl
  value_unchanged keys (str s) h = refl
  value_unchanged keys (arr xs) h = ap arr (items_unchanged keys xs h)
  value_unchanged keys (obj d) h = ap obj (dict_unchanged keys d h)

  items_unchanged :
      (keys : List Json) (xs : Items) → AreRedacted keys xs → redact_items keys xs ≡ xs
  items_unchanged keys nil h = refl
  items_unchanged keys (cons x xs) h =
      ap₂ cons (value_unchanged keys x h.0) (items_unchanged keys xs h.1)

  dict_unchanged : (keys : List Json) (d : Dict) → IsRedactedDict keys d → redact_dict keys d ≡ d
  dict_unchanged keys end h = refl
  dict_unchanged keys (field k v rest) (inl (s, e), h) = rw (s, e, dict_unchanged keys rest h)
  dict_unchanged keys (field k v rest) (inr (s, e), h) =
      rw (s, value_unchanged keys v e, dict_unchanged keys rest h)

mutual
  unfolding IsRedacted holds

  value_keyless : (v : Json) → IsRedacted [] v
  value_keyless null = tt
  value_keyless (bool b) = tt
  value_keyless (int n) = tt
  value_keyless (float f) = tt
  value_keyless (str s) = tt
  value_keyless (arr xs) = items_keyless xs
  value_keyless (obj d) = dict_keyless d

  items_keyless : (xs : Items) → AreRedacted [] xs
  items_keyless nil = tt
  items_keyless (cons x xs) = (value_keyless x, items_keyless xs)

  dict_keyless : (d : Dict) → IsRedactedDict [] d
  dict_keyless end = tt
  dict_keyless (field k v rest) = (inr (refl, value_keyless v), dict_keyless rest)

payload-redact_keys :
    (k : Json) (ks : List Json) (e e' : TraceEvent)
    → redact_keys (k ∷ ks) e ≡ ok e'
    → redact_dict (k ∷ ks) e.payload ≡ e'.payload
unfolding redact_keys
payload-redact_keys k ks e e' h = ground arith

redact_keys-IsRedacted :
    (keys : List Json) (e e' : TraceEvent)
    → redact_keys keys e ≡ ok e'
    → IsRedactedDict keys e'.payload
redact_keys-IsRedacted [] e e' h = dict_keyless e'.payload
redact_keys-IsRedacted (k ∷ ks) e e' h =
    subst (IsRedactedDict (k ∷ ks)) (payload-redact_keys k ks e e' h)
      (dict_IsRedacted (k ∷ ks) e.payload)

-- Whatever payload an event carries, the event that `redact_event` returns, which is the one that
-- the writer writes, holds the mark under every sensitive key at every depth.
pub redact_event-IsRedacted :
    (e e' : TraceEvent) → redact_event e ≡ ok e' → IsRedactedDict e.sensitive_keys e'.payload
unfolding redact_event
redact_event-IsRedacted e e' h = redact_keys-IsRedacted e.sensitive_keys e e' h

-- Redaction changes nothing but the sensitive values: it keeps exactly the values that hold the
-- mark under every sensitive key, and so it is idempotent.
pub redact_value_iff :
    (keys : List Json) (v : Json)
    → (redact_value keys v ≡ v ↔ IsRedacted keys v)
      × (redact_value keys (redact_value keys v) ≡ redact_value keys v)
redact_value_iff keys v = (
  ((λ e. subst (IsRedacted keys) e (value_IsRedacted keys v)), value_unchanged keys v),
  value_unchanged keys _ (value_IsRedacted keys v),
)
