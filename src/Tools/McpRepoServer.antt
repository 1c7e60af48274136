-- ===== src/Tools/McpRepoServer.antt =====
-- src/anse_harness/tools/mcp_repo_server.py: one message, and the loop over the lines of stdin.
-- The `repr` of a str, `json.loads` and `json.dumps` are arguments.
pub mod Protocol
pub mod Session
use ai_native_sweng.Json.Convert.{contained}
use ai_native_sweng.Prelude.{
  strip, ℕ, suc, String, Bool, true, false, not, Option, none, some, List, [], ◌∷◌, ◌++◌, concat,
  join, decimal, is_in, if◌then◌else◌, ◌==◌, nonempty, Result, ok, err, type_error, attribute_error,
  ◌>>=◌,
}
use ai_native_sweng.Json.Value.{
  ℤ, negsuc, Json, null, bool, int, str, obj, Dict, dict, object, array, strings,
}
use ai_native_sweng.Json.Convert.{Builtins, get, get_or, get_any, get_or_any, index_any, as_str}

abbrev pub protocol_version : String
protocol_version = "2024-11-05"

-- FIXTURE
abbrev pub fixture : List (String × List String)
fixture =
    (
      "internal/textproc/normalize.go",
      "func NormalizeWhitespace(input string) string {"
          ∷ "  return strings.Join(strings.Fields(input), \" \")" ∷ [],
    )
    ∷ (
      "internal/textproc/normalize_test.go",
      "func TestNormalizeWhitespace(t *testing.T) {" ∷ "  // collapses runs of internal whitespace"
          ∷ [],
    )
    ∷ ("README.md", "# textproc" ∷ "A small text-processing library." ∷ [])
    ∷ []

-- TOOLS
unfoldable pub tools : Json
tools = array (
    object (
      ("name", str "repo_search")
      ∷ ("description", str "Search repository file contents for a substring.")
      ∷ (
        "inputSchema",
        object (
            ("type", str "object")
            ∷ ("properties", object (("query", object (("type", str "string") ∷ [])) ∷ []))
            ∷ ("required", strings ("query" ∷ []))
            ∷ []),
      )
      ∷ [])
    ∷ [])

-- _result
unfoldable pub result_reply : Json → Json → Dict
result_reply request_id result =
    dict (("jsonrpc", str "2.0") ∷ ("id", request_id) ∷ ("result", result) ∷ [])

-- _error; a code -n is `negsuc (n - 1)`
unfoldable pub error_reply : Json → ℤ → String → Dict
error_reply request_id code message = dict (
    ("jsonrpc", str "2.0")
    ∷ ("id", request_id)
    ∷ ("error", object (("code", int code) ∷ ("message", str message) ∷ []))
    ∷ [])

-- x == "s"
unfoldable pub is_str : String → Json → Bool
is_str s (str t) = t == s
is_str s _ = false

module _ (py : Builtins) (quoted : String → String) where
  -- the hits in the lines of one file, numbered from `n`
  unfoldable pub line_hits : String → String → ℕ → List String → List String
  unfolding concat decimal
  line_hits query path n [] = []
  line_hits query path n (line ∷ rest) =
      if is_in query line
      then concat (path ∷ ":" ∷ decimal n ∷ ": " ∷ strip line ∷ [])
        ∷ line_hits query path (suc n) rest
      else line_hits query path (suc n) rest

  unfoldable pub file_hits : String → List (String × List String) → List String
  unfolding line_hits
  file_hits query [] = []
  file_hits query ((path, lines) ∷ rest) = line_hits query path 1 lines ++ file_hits query rest

  unfoldable pub search_text : String → List String → String
  unfolding join concat
  search_text query hits =
      if nonempty hits then join "\n" hits else concat ("no matches for " ∷ quoted query ∷ [])

  -- _repo_search, whose first use of the query is `query in line`, which a str has to be
  unfoldable pub repo_search : Json → Result Json
  unfolding search_text file_hits
  repo_search (str query) = ok (
      object (
        (
          "content",
          array (
              object (
                ("type", str "text")
                ∷ ("text", str (search_text query (file_hits query fixture)))
                ∷ [])
              ∷ []),
        )
        ∷ ("isError", bool false)
        ∷ []))
  repo_search _ = err type_error

  -- a "tools/call" of repo_search, once it is known whether the arguments have a query
  unfoldable pub searched : Json → Json → Bool → Result Dict
  unfolding repo_search error_reply result_reply index_any
  searched request_id arguments false =
      ok (error_reply request_id (negsuc 32601) "missing required argument: query")
  searched request_id arguments true = do
    query ← index_any arguments "query"
    result ← repo_search query
    ok (result_reply request_id result)

  -- a "tools/call" message
  unfoldable pub call_tool : Json → Dict → Result Dict
  unfolding is_str searched contained error_reply get_or get_any get_or_any as_str concat
  call_tool request_id message = do
    let params = get_or message "params" (object [])
    name ← get_any params "name"
    arguments ← get_or_any params "arguments" (object [])
    if not (is_str "repo_search" name)
        then ok (
            error_reply request_id (negsuc 32601) (concat ("unknown tool: " ∷ as_str py name ∷ [])))
        else (contained arguments "query" >>= searched request_id arguments)

  unfoldable pub answer_to : Json → Json → Dict → Result (Option Dict)
  unfolding is_str result_reply tools call_tool error_reply as_str concat
  answer_to method request_id message =
      if is_str "initialize" method
      then ok (
          some (
            result_reply request_id (
              object (
                ("protocolVersion", str protocol_version)
                ∷ ("capabilities", object (("tools", object []) ∷ []))
                ∷ (
                  "serverInfo",
                  object (("name", str "mcp-repo-server") ∷ ("version", str "0.0.1") ∷ []),
                )
                ∷ []))))
      else if is_str "notifications/initialized" method
      then ok none
      else if is_str "tools/list" method
      then ok (some (result_reply request_id (object (("tools", tools) ∷ []))))
      else if is_str "tools/call" method
      then (call_tool request_id message >>= λ reply. ok (some reply))
      else ok (
          some (
            error_reply request_id (negsuc 32600)
              (concat ("method not found: " ∷ as_str py method ∷ []))))

  unfoldable pub handle : Dict → Result (Option Dict)
  unfolding answer_to get
  handle message = answer_to (get message "method") (get message "id") message

  module _ (loads : String → Option Json) (dumps : Dict → String) where
    -- what is written for a reply, if there is one
    unfoldable pub written : Option Dict → List String
    unfolding concat
    written none = []
    written (some reply) = concat (dumps reply ∷ "\n" ∷ []) ∷ []

    -- a line that parses, if it does; of the values only a dict has a `get`
    unfoldable pub serve_message : Option Json → Result (List String)
    unfolding written handle error_reply
    serve_message none = ok (written (some (error_reply null (negsuc 32699) "parse error")))
    serve_message (some (obj message)) = do reply ← handle message; ok (written reply)
    serve_message (some _) = err attribute_error

    -- one line of stdin
    unfoldable pub serve_line : String → Result (List String)
    unfolding serve_message
    serve_line raw = if strip raw == "" then ok [] else serve_message (loads (strip raw))

    -- what is written before a line's, and the exception that ends the loop, if one does
    unfoldable pub before_rest :
        Result (List String) → List String × Result (Unit {0}) → List String × Result (Unit {0})
    before_rest (ok lines) (out, ending) = (lines ++ out, ending)
    before_rest (err e) rest = ([], err e)

    unfoldable pub main : List String → List String × Result (Unit {0})
    unfolding before_rest serve_line
    main [] = ([], ok tt)
    main (raw ∷ rest) = before_rest (serve_line raw) (main rest)
