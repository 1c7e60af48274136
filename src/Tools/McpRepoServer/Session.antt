-- ===== src/Tools/McpRepoServer/Session.antt =====
-- A whole session: every request is answered, and the server goes on to the end of its input.
use mathlib.Core.Path.{subst}
use ai_native_sweng.Json.Convert.{contained}
use ai_native_sweng.Prelude.{
  strip, ℕ, ◌+◌, String, true, false, Option, none, some, List, [], ◌∷◌, ◌≡◌, ◌⊎◌, inl, inr, refl,
  ap, sym, ◌∙◌, ◌==◌, Result, ok, if◌then◌else◌, arith, All, length, Bool-cases, length-append,
}
use ai_native_sweng.Json.Value.{null, Json, str, obj, Dict, object, lookup}
use ai_native_sweng.Json.Convert.{Builtins, get, get_or, has, index, get_any, get_or_any, index_any}
use ai_native_sweng.Tools.McpRepoServer.Protocol.{Answers, handle_lem, is_str-eq}
use ai_native_sweng.Tools.McpRepoServer.{
  is_str, repo_search, searched, call_tool, answer_to, handle, serve_message, serve_line, written,
  before_rest, main,
}

-- A query that is there is a text.
unfoldable IsQuery : Option Json → Type 0
IsQuery none = Unit
IsQuery (some v) = (q : String) × (v ≡ str q)

-- The parameters and arguments of a tool call are objects, and its query a text.
unfoldable IsWellFormed : Dict → Type 0
unfolding IsQuery
IsWellFormed d =
    (params : Dict) × (arguments : Dict) × (get_or d "params" (object []) ≡ obj params)
    × (get_or params "arguments" (object []) ≡ obj arguments)
    × IsQuery (lookup "query" arguments)

unfoldable Returns {ℓ} : {A : Type ℓ} → Result A → Type ℓ
Returns {A = A} r = (a : A) × (r ≡ ok a)

has-none : (a : Dict) → lookup "query" a ≡ none → has a "query" ≡ false
unfolding has
has-none a e = rw (has, e) refl

has-some : (a : Dict) (v : Json) → lookup "query" a ≡ some v → has a "query" ≡ true
unfolding has
has-some a v e = rw (has, e) refl

index_any-some :
    (a : Dict) (v : Json) → lookup "query" a ≡ some v → index_any (obj a) "query" ≡ ok v
unfolding index_any index
index_any-some a v e = rw (index, e) refl

module _ (py : Builtins) (quoted : String → String) where
  searched-Returns :
      (id : Json) (a : Dict) (o : Option Json)
      → IsQuery o
      → lookup "query" a ≡ o
      → Returns (searched py quoted id (obj a) (has a "query"))
  unfolding searched Returns IsQuery repo_search
  searched-Returns id a none h e =
      subst (λ found. Returns (searched py quoted id (obj a) found)) (sym (has-none a e)) (_, refl)
  searched-Returns id a (some v) (q, k) e =
      subst (λ found. Returns (searched py quoted id (obj a) found)) (sym (has-some a v e))
        (rw (index_any-some a v e, k) (_, refl))

  call_tool-Returns : (id : Json) (d : Dict) → IsWellFormed d → Returns (call_tool py quoted id d)
  unfolding call_tool Returns IsWellFormed get_any get_or_any contained
  call_tool-Returns id d (params, arguments, p, a, q) =
      rw (p, a)
        (elim (Bool-cases (is_str "repo_search" (get_or params "name" null))) [
          | inl h ↦ rw h (searched-Returns id arguments _ q refl)
          | inr h ↦ rw h (_, refl)
        ])

  handle-Returns : (d : Dict) → IsWellFormed d → Returns (handle py quoted d)
  unfolding handle answer_to Returns
  handle-Returns d h = elim (Bool-cases (is_str "initialize" (get d "method"))) [
    | inl h0 ↦ rw h0 (_, refl)
    | inr h0 ↦ rw h0 (elim (Bool-cases (is_str "notifications/initialized" (get d "method"))) [
      | inl h1 ↦ rw h1 (_, refl)
      | inr h1 ↦ rw h1 (elim (Bool-cases (is_str "tools/list" (get d "method"))) [
        | inl h2 ↦ rw h2 (_, refl)
        | inr h2 ↦ rw h2 (elim (Bool-cases (is_str "tools/call" (get d "method"))) [
          | inl h3 ↦ rw (h3, (call_tool-Returns (get d "id") d h).1) (_, refl)
          | inr h3 ↦ rw h3 (_, refl)
        ])
      ])
    ])
  ]

  module _ (loads : String → Option Json) (dumps : Dict → String) where
    -- What the server can take from a line: nothing, a text that is no JSON, or a message.
    unfoldable pub IsServed : String → Type 0
    unfolding IsWellFormed
    IsServed raw =
        ((strip raw == "") ≡ true)
        ⊎ (loads (strip raw) ≡ none)
        ⊎ ((d : Dict) × (loads (strip raw) ≡ some (obj d)) × IsWellFormed d)

    unfoldable replies_to : Option Json → ℕ
    replies_to none = 1
    replies_to (some (obj d)) = if is_str "notifications/initialized" (get d "method") then 0 else 1
    replies_to (some _) = 0

    -- how many replies the lines get: one each, but for blank lines and messages of this method
    unfoldable pub requests : List String → ℕ
    unfolding replies_to is_str get
    requests [] = 0
    requests (raw ∷ rest) =
        (if strip raw == "" then 0 else replies_to (loads (strip raw))) + requests rest

    written-replies :
        (d : Dict) (o : Option Dict)
        → Answers (get d "method") (get d "id") o
        → length (written py quoted loads dumps o) ≡ replies_to (some (obj d))
    unfolding Answers written replies_to is_str
    written-replies d none h = rw (ap (is_str "notifications/initialized") h) refl
    written-replies d (some r) (h, k) =
        elim (Bool-cases (is_str "notifications/initialized" (get d "method"))) [
          | inl e ↦ absurd (h (is_str-eq "notifications/initialized" (get d "method") e))
          | inr e ↦ rw e refl
        ]

    message-Returns :
        (o : Option Json)
        → (o ≡ none) ⊎ ((d : Dict) × (o ≡ some (obj d)) × IsWellFormed d)
        → (lines : List String) × (serve_message py quoted loads dumps o ≡ ok lines)
          × (length lines ≡ replies_to o)
    unfolding serve_message written replies_to Returns
    message-Returns o (inl e) = rw e (_, refl, refl)
    message-Returns o (inr (d, e, h)) =
        let (reply, k) = handle-Returns d h in
        rw (e, k) (_, refl, written-replies d reply (handle_lem py quoted d reply k))

    serve_line-Returns :
        (raw : String)
        → IsServed raw
        → (lines : List String) × (serve_line py quoted loads dumps raw ≡ ok lines)
          × (length lines ≡ (if strip raw == "" then 0 else replies_to (loads (strip raw))))
    unfolding IsServed serve_line
    serve_line-Returns raw (inl blank) = rw blank ([], refl, refl)
    serve_line-Returns raw (inr h) = elim (Bool-cases (strip raw == "")) [
      | inl blank ↦ rw blank ([], refl, refl)
      | inr full ↦ rw full (message-Returns (loads (strip raw)) h)
    ]

    -- A session of blank lines, texts that are no JSON and messages, with the parameters of a tool
    -- call objects and its query a text, never stops the server: it reads its input to the end and
    -- writes one reply for each line but the blank ones and the messages of method
    -- notifications/initialized; a message without an id is otherwise answered like any other.
    pub main_lem :
        (raws : List String)
        → All IsServed raws
        → ((main py quoted loads dumps raws).1 ≡ ok tt)
          × (length (main py quoted loads dumps raws).0 ≡ requests raws)
    unfolding main before_rest requests
    main_lem [] h = (refl, refl)
    main_lem (raw ∷ rest) (h, hs) =
        let (lines, e, k) = serve_line-Returns raw h in
        let (ends, counted) = main_lem rest hs in
        rw e (ends, length-append lines _ ∙ omega (arith, k, counted))
