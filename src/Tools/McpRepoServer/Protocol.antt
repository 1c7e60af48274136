-- ===== src/Tools/McpRepoServer/Protocol.antt =====
-- Every request has its answer.
use mathlib.Core.Path.{subst}
use ai_native_sweng.Json.Convert.{contained}
use ai_native_sweng.Prelude.{
  String, Bool, true, false, not, Option, none, some, [], ◌∷◌, ◌≡◌, ◌≢◌, refl, ap, Result, ok, err,
  ◌>>=◌, if◌then◌else◌, arith, eq_iff, Bool-cases, inl, inr, concat,
}
use ai_native_sweng.Json.Value.{
  ℤ, negsuc, Json, null, bool, int, float, str, arr, obj, Dict, object, lookup,
}
use ai_native_sweng.Json.Convert.{
  Builtins, get, get_or, has, index_any, get_any, get_or_any, as_str,
}
use ai_native_sweng.Tools.McpRepoServer.{
  result_reply, error_reply, repo_search, is_str, searched, call_tool, answer_to, handle,
}

pub is_str-eq : (s : String) (j : Json) → is_str s j ≡ true → j ≡ str s
unfolding is_str
is_str-eq s null h = absurd (ground arith)
is_str-eq s (bool b) h = absurd (ground arith)
is_str-eq s (int n) h = absurd (ground arith)
is_str-eq s (float f) h = absurd (ground arith)
is_str-eq s (str t) h = ap str ((eq_iff t s).0 h)
is_str-eq s (arr xs) h = absurd (ground arith)
is_str-eq s (obj d) h = absurd (ground arith)

-- a JSON-RPC reply to the request with this id: a result or an error
unfoldable pub IsReply : Json → Dict → Type 0
unfolding get has
IsReply id r =
    (get r "jsonrpc" ≡ str "2.0") × (get r "id" ≡ id) × (has r "result" ≡ not (has r "error"))

result_reply-IsReply : (id v : Json) → IsReply id (result_reply id v)
unfolding IsReply result_reply get_or has lookup
result_reply-IsReply id v = (refl, refl, refl)

error_reply-IsReply : (id : Json) (code : ℤ) (m : String) → IsReply id (error_reply id code m)
unfolding IsReply error_reply get_or has lookup
error_reply-IsReply id code m = (refl, refl, refl)

abbrev initialized : Json
initialized = str "notifications/initialized"

-- What a message is answered with: nothing only if its method is the one that says that the client is
-- initialized, and else a reply, also without an id.
unfoldable pub Answers : Json → Json → Option Dict → Type 0
Answers method id none = method ≡ initialized
Answers method id (some r) = (method ≢ initialized) × IsReply id r

-- What a call returns, if it returns, has the property.
unfoldable Always {ℓ κ} : {A : Type ℓ} → (A → Type κ) → Result A → Type κ
Always P (ok a) = P a
Always P (err e) = Unit

Always-bind {ℓ κ} :
    {A B : Type ℓ} (P : B → Type κ) (m : Result A) (f : A → Result B)
    → ((a : A) → Always P (f a))
    → Always P (m >>= f)
unfolding Always
Always-bind P (ok a) f h = h a
Always-bind P (err e) f h = tt

Always-if {ℓ κ} :
    {A : Type ℓ} (P : A → Type κ) (test : Bool) (x y : Result A)
    → (test ≡ true → Always P x)
    → (test ≡ false → Always P y)
    → Always P (if test then x else y)
Always-if P true x y p q = p refl
Always-if P false x y p q = q refl

module _ (py : Builtins) (quoted : String → String) where
  searched-IsReply :
      (id arguments : Json) (known : Bool)
      → Always (IsReply id) (searched py quoted id arguments known)
  unfolding searched Always
  searched-IsReply id arguments false = error_reply-IsReply id _ _
  searched-IsReply id arguments true =
      Always-bind (IsReply id) (index_any arguments "query") _ (λ query.
        Always-bind (IsReply id) (repo_search py quoted query) (λ found. ok (result_reply id found))
          (λ found. result_reply-IsReply id found))

  called-IsReply :
      (id name arguments : Json)
      → Always (IsReply id) (
          if not (is_str "repo_search" name)
          then ok (error_reply id (negsuc 32601) (concat ("unknown tool: " ∷ as_str py name ∷ [])))
          else (contained arguments "query" >>= searched py quoted id arguments))
  unfolding Always
  called-IsReply id name arguments = elim (Bool-cases (is_str "repo_search" name)) [
    | inl h ↦ rw h (
        Always-bind (IsReply id) (contained arguments "query") (searched py quoted id arguments)
          (λ known. searched-IsReply id arguments known))
    | inr h ↦ rw h (error_reply-IsReply id (negsuc 32601) _)
  ]

  call_tool-IsReply : (id : Json) (d : Dict) → Always (IsReply id) (call_tool py quoted id d)
  unfolding call_tool
  call_tool-IsReply id d =
      Always-bind (IsReply id) (get_any (get_or d "params" (object [])) "name") _ (λ name.
        Always-bind (IsReply id)
          (get_or_any (get_or d "params" (object [])) "arguments" (object [])) (λ arguments. _)
          (λ arguments. called-IsReply id name arguments))

  other_method :
      (method : Json) → is_str "notifications/initialized" method ≡ false → method ≢ initialized
  unfolding is_str
  other_method method h e = absurd (ground (arith, h, ap (is_str "notifications/initialized") e))

  initialize-other : (method : Json) → is_str "initialize" method ≡ true → method ≢ initialized
  unfolding is_str
  initialize-other method h =
      other_method method
        (ap (is_str "notifications/initialized") (is_str-eq "initialize" method h))

  called :
      (method id : Json) (d : Dict)
      → is_str "notifications/initialized" method ≡ false
      → Always (Answers method id) (call_tool py quoted id d >>= λ reply. ok (some reply))
  unfolding Always Answers
  called method id d h =
      elim (call_tool py quoted id d)
          as (λ m.
            Always (IsReply id) m → Always (Answers method id) (m >>= λ reply. ok (some reply))) [
              | ok r ↦ λ p. (other_method method h, p)
              | err e ↦ λ p. tt
            ]
        (call_tool-IsReply id d)

  answer_to-Answers :
      (method id : Json) (d : Dict) → Always (Answers method id) (answer_to py quoted method id d)
  unfolding answer_to Always Answers
  answer_to-Answers method id d = elim (Bool-cases (is_str "initialize" method)) [
    | inl h ↦ rw h (initialize-other method h, result_reply-IsReply id _)
    | inr h0 ↦ rw h0 (elim (Bool-cases (is_str "notifications/initialized" method)) [
      | inl h ↦ rw h (is_str-eq "notifications/initialized" method h)
      | inr h1 ↦ rw h1 (elim (Bool-cases (is_str "tools/list" method)) [
        | inl h ↦ rw h (other_method method h1, result_reply-IsReply id _)
        | inr h2 ↦ rw h2 (elim (Bool-cases (is_str "tools/call" method)) [
          | inl h ↦ rw h (called method id d h1)
          | inr h ↦ rw h (other_method method h1, error_reply-IsReply id (negsuc 32600) _)
        ])
      ])
    ])
  ]

  -- Whatever message is handled: a reply carries the message's id, or null without one, and either a
  -- result or an error, never both. A message is handled without a reply exactly when its method is
  -- notifications/initialized, so that any other notification is answered with a null id.
  pub handle_lem :
      (d : Dict) (o : Option Dict)
      → handle py quoted d ≡ ok o
      → Answers (get d "method") (get d "id") o
  unfolding handle Always
  handle_lem d o h =
      subst (Always (Answers (get d "method") (get d "id"))) h
        (answer_to-Answers (get d "method") (get d "id") d)
