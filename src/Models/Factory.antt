-- ===== src/Models/Factory.antt =====
-- src/anse_harness/models/factory.py: the configuration of the model and the choice of the adapter.
-- Reading the TOML file, joining a path to the file's directory and the adapters' constructors are
-- arguments.
pub mod Chosen
pub mod Fields
use ai_native_sweng.Prelude.{
  String, Bool, true, false, Option, none, some, List, [], ◌∷◌, ◌==◌, contains, if◌then◌else◌,
  Result, ok, err, config_error, ◌>>=◌,
}
use ai_native_sweng.Json.Value.{Json, Float, float, str, Dict, object}
use ai_native_sweng.Json.Convert.{
  Builtins, get, get_or, get_or_any, index_any, as_str, as_float, contained,
}

abbrev pub modes : List String
modes = "live" ∷ "scripted" ∷ "replay" ∷ []

pub record CostTable : Type 0 where
  pub input_usd_per_mtok : Float
  pub output_usd_per_mtok : Float

pub record ModelConfig : Type 0 where
  pub mode : String
  pub provider : String
  pub model : String
  pub script_path : Option String
  pub trace_path : Option String
  pub cost_table : CostTable

-- The mode, if it is one of MODES; no other value equals a str.
unfoldable pub known_mode : Json → Result String
unfolding contains
known_mode (str s) = if contains modes s then ok s else err config_error
known_mode _ = err config_error

-- f, after the test of whether the section has the key
unfoldable pub path_if :
    (py : Builtins) (under : String → String) → Json → String → Bool → Result (Option String)
unfolding index_any as_str
path_if py under section key false = ok none
path_if py under section key true = do v ← index_any section key; ok (some (under (as_str py v)))

module _ (py : Builtins) (under : String → String) where
  -- the path that a section of the file gives, if it does
  unfoldable pub section_path : Dict → String → String → Result (Option String)
  unfolding path_if contained get_or
  section_path file section key =
      contained (get_or file section (object [])) key
      >>= path_if py under (get_or file section (object [])) key

  -- load_model_config, of what the file reads as
  unfoldable pub model_config : Dict → Result ModelConfig
  unfolding known_mode section_path get_or_any as_str as_float get get_or
  model_config file = do
    mode ← known_mode (get file "mode")
    script_path ← section_path file "scripted" "script"
    trace_path ← section_path file "replay" "trace"
    let live = get_or file "live" (object [])
    provider ← get_or_any live "provider" (str "anthropic")
    model ← get_or_any live "model" (str "")
    cost ← get_or_any live "cost" (object [])
    input_raw ← get_or_any cost "input_usd_per_mtok" (float 0)
    input ← as_float py input_raw
    output_raw ← get_or_any cost "output_usd_per_mtok" (float 0)
    output ← as_float py output_raw
    ok (record {
      mode = mode;
      provider = as_str py provider;
      model = as_str py model;
      script_path = script_path;
      trace_path = trace_path;
      cost_table = record { input_usd_per_mtok = input; output_usd_per_mtok = output };
    })

-- the adapters' constructors
pub record Constructors (A : Type 0) : Type 0 where
  pub scripted : String → CostTable → Result A
  pub replay : String → CostTable → Result A
  pub anthropic : String → CostTable → Result A
  pub openai : String → CostTable → Result A
  pub gemini : String → CostTable → Result A

unfoldable pub from_path :
    {A : Type 0} → (String → CostTable → Result A) → Option String → CostTable → Result A
from_path build none cost = err config_error
from_path build (some path) cost = build path cost

unfoldable pub live_adapter : {A : Type 0} → Constructors A → ModelConfig → Result A
live_adapter build c =
    if c.model == ""
    then err config_error
    else if c.provider == "anthropic"
    then build.anthropic c.model c.cost_table
    else if c.provider == "openai"
    then build.openai c.model c.cost_table
    else if c.provider == "gemini"
    then build.gemini c.model c.cost_table
    else err config_error

unfoldable pub create_adapter : {A : Type 0} → Constructors A → ModelConfig → Result A
unfolding from_path live_adapter
create_adapter build c =
    if c.mode == "scripted"
    then from_path build.scripted c.script_path c.cost_table
    else if c.mode == "replay"
    then from_path build.replay c.trace_path c.cost_table
    else if c.mode == "live"
    then live_adapter build c
    else err config_error
