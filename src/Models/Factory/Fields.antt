-- ===== src/Models/Factory/Fields.antt =====
-- Where each field of a configuration is read from.
use mathlib.Core.Path.{subst}
use ai_native_sweng.Prelude.{
  String, Bool, true, false, Option, none, some, [], ◌≡◌, refl, contains, Result, ok, err, ◌>>=◌,
  arith,
}
use ai_native_sweng.Json.Value.{Json, null, bool, int, float, str, arr, obj, Float, Dict, object}
use ai_native_sweng.Json.Convert.{
  Builtins, get, get_or, get_or_any, index_any, contained, as_str, as_float,
}
use ai_native_sweng.Models.Factory.{
  ModelConfig, modes, known_mode, section_path, path_if, model_config,
}

known_mode_lem :
    (j : Json) (m : String) → known_mode j ≡ ok m → (j ≡ str m) × (contains modes m ≡ true)
unfolding known_mode
known_mode_lem null m h = absurd (ground arith)
known_mode_lem (bool b) m h = absurd (ground arith)
known_mode_lem (int n) m h = absurd (ground arith)
known_mode_lem (float x) m h = absurd (ground arith)
known_mode_lem (str s) m h = ground arith
known_mode_lem (arr xs) m h = absurd (ground arith)
known_mode_lem (obj d) m h = absurd (ground arith)

-- What a call returns, if it returns, has the property.
unfoldable Ensures : (ModelConfig → Type 0) → Result ModelConfig → Type 0
Ensures P (ok c) = P c
Ensures P (err e) = Unit

after {ℓ} :
    {A : Type ℓ} (P : ModelConfig → Type 0) (m : Result A) (f : A → Result ModelConfig)
    → ((a : A) → m ≡ ok a → Ensures P (f a))
    → Ensures P (m >>= f)
unfolding Ensures
after P (ok a) f h = h a refl
after P (err e) f h = tt

module _ (py : Builtins) (under : String → String) where
  -- The path is the one that stands under the key, or there is none and the key is not there.
  unfoldable pub IsPath : Json → String → Option String → Type 0
  IsPath section key none = contained section key ≡ ok false
  IsPath section key (some path) =
      (v : Json) × (contained section key ≡ ok true)
      × (index_any section key ≡ ok v)
      × (path ≡ under (as_str py v))

  -- The text is that of what stands under the key, or of the default.
  unfoldable pub IsText : Json → String → Json → String → Type 0
  IsText section key default text =
      (v : Json) × (get_or_any section key default ≡ ok v) × (text ≡ as_str py v)

  unfoldable pub IsFloat : Json → String → Float → Type 0
  IsFloat section key x =
      (v : Json) × (get_or_any section key (float 0) ≡ ok v) × (as_float py v ≡ ok x)

  -- Each field of the configuration is read from its section and key of the file.
  unfoldable pub IsRead : Dict → ModelConfig → Type 0
  unfolding IsPath IsText IsFloat
  IsRead file c =
      let live = get_or file "live" (object []) in
      (get file "mode" ≡ str c.mode)
      × (contains modes c.mode ≡ true)
      × IsPath (get_or file "scripted" (object [])) "script" c.script_path
      × IsPath (get_or file "replay" (object [])) "trace" c.trace_path
      × IsText live "provider" (str "anthropic") c.provider
      × IsText live "model" (str "") c.model
      × ((cost : Json) × (get_or_any live "cost" (object []) ≡ ok cost)
          × IsFloat cost "input_usd_per_mtok" c.cost_table.input_usd_per_mtok
          × IsFloat cost "output_usd_per_mtok" c.cost_table.output_usd_per_mtok)

  module _ (section : Json) (key : String) where
    value-IsPath :
        (value : Result Json) (path : Option String)
        → contained section key ≡ ok true
        → index_any section key ≡ value
        → (value >>= λ v. ok (some (under (as_str py v)))) ≡ ok path
        → IsPath section key path
    unfolding IsPath
    value-IsPath (ok v) none there e h = absurd (ground arith)
    value-IsPath (ok v) (some path) there e h = (v, there, e, ground arith)
    value-IsPath (err x) path there e h = absurd (ground arith)

    path_if-IsPath :
        (found : Bool) (path : Option String)
        → contained section key ≡ ok found
        → path_if py under section key found ≡ ok path
        → IsPath section key path
    unfolding path_if IsPath
    path_if-IsPath false none absent h = absent
    path_if-IsPath false (some path) absent h = absurd (ground arith)
    path_if-IsPath true path there h = value-IsPath (index_any section key) path there refl h

    found-IsPath :
        (found : Result Bool) (path : Option String)
        → contained section key ≡ found
        → (found >>= path_if py under section key) ≡ ok path
        → IsPath section key path
    found-IsPath (ok found) path e h = path_if-IsPath found path e h
    found-IsPath (err x) path e h = absurd (ground arith)

  section_path-IsPath :
      (file : Dict) (section key : String) (path : Option String)
      → section_path py under file section key ≡ ok path
      → IsPath (get_or file section (object [])) key path
  unfolding section_path
  section_path-IsPath file section key path h =
      found-IsPath (get_or file section (object [])) key
        (contained (get_or file section (object [])) key) path refl h

  model_config-Ensures : (file : Dict) → Ensures (IsRead file) (model_config py under file)
  unfolding model_config IsRead Ensures IsText IsFloat
  model_config-Ensures file =
      let P = IsRead file in
      let live = get_or file "live" (object []) in
      after P (known_mode (get file "mode")) _ (λ mode known.
        after P (section_path py under file "scripted" "script") _ (λ script hs.
          after P (section_path py under file "replay" "trace") _ (λ path hp.
            after P (get_or_any live "provider" (str "anthropic")) _ (λ provider hv.
              after P (get_or_any live "model" (str "")) _ (λ model hm.
                after P (get_or_any live "cost" (object [])) _ (λ cost hc.
                  after P (get_or_any cost "input_usd_per_mtok" (float 0)) _ (λ raw hr.
                    after P (as_float py raw) _ (λ input hi.
                      after P (get_or_any cost "output_usd_per_mtok" (float 0)) _ (λ out ho.
                        after P (as_float py out) _ (λ output hu. (
                          (known_mode_lem (get file "mode") mode known).0,
                          (known_mode_lem (get file "mode") mode known).1,
                          section_path-IsPath file "scripted" "script" script hs,
                          section_path-IsPath file "replay" "trace" path hp,
                          (provider, hv, refl),
                          (model, hm, refl),
                          (cost, hc, (raw, hr, hi), (out, ho, hu)),
                        )))))))))))

  -- A configuration that was read has each field from its section and key of the file.
  pub model_config-IsRead :
      (file : Dict) (c : ModelConfig) → model_config py under file ≡ ok c → IsRead file c
  unfolding Ensures
  model_config-IsRead file c h = subst (Ensures (IsRead file)) h (model_config-Ensures file)
