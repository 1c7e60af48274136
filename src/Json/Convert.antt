-- ===== src/Json/Convert.antt =====
-- Python's conversions and subscripts, as the payload readers use them. Each is exact on the type
-- that the writers produce; what a builtin does with a value of another type is a parameter.
use ai_native_sweng.Prelude.{
  Option, String, Bool, true, false, none, some, List, [], ◌∷◌, ◌≡◌, refl, not, ◌||◌, map, eqb,
  ◌==◌, Result, ok, err, key_error, type_error, attribute_error, ◌>>=◌, ◌+◌, concat, decimal, is_in,
  if◌then◌else◌,
}
use ai_native_sweng.Json.Value.{
  optional, Items, ℤ, pos, negsuc, Float, Json, null, bool, int, float, str, arr, obj, nil, cons,
  Dict, end, field, items_list, items_list-items, lookup, strings,
}

-- What the builtins do outside the type that they return.
pub record Builtins : Type 0 where
  -- str(x), x not a str
  pub repr : Json → String
  -- int(x), x neither an int nor a bool
  pub int_of : Json → Result ℤ
  -- float(x), x not a float
  pub float_of : Json → Result Float
  -- dict(x), x not a dict
  pub dict_of : Json → Result Dict

-- d[k]
unfoldable pub index : Dict → String → Result Json
unfolding lookup
index d k = elim (lookup k d) [ some v ↦ ok v | none ↦ err (key_error k) ]

-- d.get(k, default)
unfoldable pub get_or : Dict → String → Json → Json
unfolding lookup
get_or d k default = elim (lookup k d) [ some v ↦ v | none ↦ default ]

-- d.get(k)
unfoldable pub get : Dict → String → Json
unfolding get_or
get d k = get_or d k null

-- k in d
unfoldable pub has : Dict → String → Bool
unfolding lookup
has d k = elim (lookup k d) [ some v ↦ true | none ↦ false ]

-- x[k], where x need not be a dict: no other value has a str subscript
unfoldable pub index_any : Json → String → Result Json
unfolding index
index_any (obj d) k = index d k
index_any _ k = err type_error

-- A value whose first use is a `str` subscript.
unfoldable pub subscripted : Json → Result Dict
subscripted (obj d) = ok d
subscripted _ = err type_error

-- x.get(k, default), where x need not be a dict
unfoldable pub get_or_any : Json → String → Json → Result Json
unfolding get_or
get_or_any (obj d) k default = ok (get_or d k default)
get_or_any _ k default = err attribute_error

unfoldable pub get_any : Json → String → Result Json
unfolding get_or_any
get_any x k = get_or_any x k null

-- the one-character strings of a str
unfoldable pub characters : String → List Json
characters String.[] = []
characters (String.◌∷◌ c s) = str (String.◌∷◌ c String.[]) ∷ characters s

unfoldable pub keys : Dict → List Json
keys end = []
keys (field k v rest) = str k ∷ keys rest

-- iter(x)
unfoldable pub iterate : Json → Result (List Json)
unfolding items_list characters keys
iterate (arr xs) = ok (items_list xs)
iterate (obj d) = ok (keys d)
iterate (str s) = ok (characters s)
iterate _ = err type_error

-- bool(x): of the floats, 0.0 and -0.0 are false
unfoldable pub truthy : Json → Bool
truthy null = false
truthy (bool b) = b
truthy (int (pos n)) = not (eqb n 0)
truthy (int (negsuc n)) = true
truthy (float f) = not (eqb f 0 || eqb f 0x8000000000000000)
truthy (str s) = not (s == "")
truthy (arr nil) = false
truthy (arr (cons x xs)) = true
truthy (obj end) = false
truthy (obj (field k v rest)) = true

module _ (py : Builtins) where
  -- str(x)
  unfoldable pub as_str : Json → String
  as_str (str s) = s
  as_str v = py.repr v

  -- int(x)
  unfoldable pub as_int : Json → Result ℤ
  as_int (int n) = ok n
  as_int (bool true) = ok (pos 1)
  as_int (bool false) = ok (pos 0)
  as_int v = py.int_of v

  -- float(x)
  unfoldable pub as_float : Json → Result Float
  as_float (float f) = ok f
  as_float v = py.float_of v

  -- dict(x)
  unfoldable pub as_dict : Json → Result Dict
  as_dict (obj d) = ok d
  as_dict v = py.dict_of v

  -- [str(item) for item in x]
  unfoldable pub as_strings : Json → Result (List String)
  unfolding iterate as_str
  as_strings x = do xs ← iterate x; ok (map as_str xs)

  map-as_str : (xs : List String) → map as_str (map str xs) ≡ xs
  unfolding as_str
  map-as_str [] = refl
  map-as_str (x ∷ xs) = rw (map-as_str xs)

  pub as_strings-strings : (xs : List String) → as_strings (strings xs) ≡ ok xs
  unfolding as_strings
  as_strings-strings xs = rw (items_list-items (map str xs), map-as_str xs)

-- `None if x is None else f(x)`
unfoldable pub optional_of {ℓ} : {A : Type ℓ} → (Json → Result A) → Json → Result (Option A)
optional_of f null = ok none
optional_of f v = do x ← f v; ok (some x)

module _ (py : Builtins) where
  pub optional_int : (o : Option ℤ) → optional_of (as_int py) (optional int o) ≡ ok o
  unfolding optional_of as_int
  optional_int none = refl
  optional_int (some n) = refl

  pub optional_float : (o : Option Float) → optional_of (as_float py) (optional float o) ≡ ok o
  unfolding optional_of as_float
  optional_float none = refl
  optional_float (some n) = refl

  pub optional_str :
      (o : Option String) → optional_of (λ v. ok (as_str py v)) (optional str o) ≡ ok o
  unfolding optional_of as_str
  optional_str none = refl
  optional_str (some s) = refl

pub optional_bool : (o : Option Bool) → optional_of (λ v. ok (truthy v)) (optional bool o) ≡ ok o
unfolding optional_of truthy
optional_bool none = refl
optional_bool (some b) = refl

-- f"{n}", for an int
unfoldable pub int_text : ℤ → String
unfolding decimal concat
int_text (pos n) = decimal n
int_text (negsuc n) = concat ("-" ∷ decimal (n + 1) ∷ [])

-- `k in x`, for a str k: of a dict its keys, of a list its items, of a str its parts
unfoldable pub holds_str : String → Items → Bool
holds_str k nil = false
holds_str k (cons (str s) xs) = if s == k then true else holds_str k xs
holds_str k (cons _ xs) = holds_str k xs

unfoldable pub contained : Json → String → Result Bool
unfolding has holds_str is_in
contained (obj d) k = ok (has d k)
contained (arr xs) k = ok (holds_str k xs)
contained (str s) k = ok (is_in k s)
contained _ k = err type_error

-- Everything that a payload reader calls, for the `unfolding` line of a round trip.
unfoldable pub reading : Unit {0}
unfolding index get get_or has index_any get_or_any get_any iterate as_str as_int as_float as_dict
    lookup truthy subscripted
reading = tt
