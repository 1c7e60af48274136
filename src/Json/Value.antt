-- ===== src/Json/Value.antt =====
-- JSON-shaped Python values: `None`, `bool`, `int`, `float`, `str`, `list` and `dict`.
use ai_native_sweng.Prelude.{
  ℕ, String, Bool, Option, none, some, List, [], ◌∷◌, ◌≡◌, refl, if◌then◌else◌, ◌==◌, map,
}

-- `negsuc n` is -(n + 1).
pub data ℤ : Type 0 where
  pos : ℕ → ℤ
  negsuc : ℕ → ℤ

-- A `float` is the number that its 64 bits read; its arithmetic is a parameter where it is used.
abbrev pub Float : Type 0
Float = ℕ

mutual
  pub data Json : Type 0 where
    null : Json
    bool : Bool → Json
    int : ℤ → Json
    float : Float → Json
    str : String → Json
    arr : Items → Json
    obj : Dict → Json

  pub data Items : Type 0 where
    nil : Items
    cons : Json → Items → Items

  -- the items of a `dict`, in insertion order
  pub data Dict : Type 0 where
    end : Dict
    field : String → Json → Dict → Dict

-- [x, y, ...]
unfoldable pub items : List Json → Items
items [] = nil
items (x ∷ xs) = cons x (items xs)

unfoldable pub items_list : Items → List Json
items_list nil = []
items_list (cons x xs) = x ∷ items_list xs

pub items_list-items : (xs : List Json) → items_list (items xs) ≡ xs
unfolding items items_list
items_list-items [] = refl
items_list-items (x ∷ xs) = rw (items_list-items xs)

abbrev pub array : List Json → Json
array xs = arr (items xs)

-- {k: v, ...}
abbrev pub dict : List (String × Json) → Dict
dict [] = end
dict ((k, v) ∷ rest) = field k v (dict rest)

abbrev pub object : List (String × Json) → Json
object entries = obj (dict entries)

-- d.get(k)
unfoldable pub lookup : String → Dict → Option Json
lookup k end = none
lookup k (field j v rest) = if j == k then some v else lookup k rest

-- `x` or `None`
abbrev pub optional {ℓ} : {A : Type ℓ} → (A → Json) → Option A → Json
optional f none = null
optional f (some x) = f x

abbrev pub strings : List String → Json
strings xs = array (map str xs)
