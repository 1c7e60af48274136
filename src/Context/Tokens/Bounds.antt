-- ===== src/Context/Tokens/Bounds.antt =====
-- The estimate against the text's size, and of a text that is put together.
use Prim.Native.String.{len, count, ◌++◌}
use Prim.Native.String.len
use Prim.Native.String.count
use Prim.Native.Char.{Char, code, len_utf8, len_utf8_def, width}
use Prim.Native.Nat.{compare, Ordering}
use text.Mathlib.TextPositions.{len-append}
use ai_native_sweng.Prelude.{suc, String, ◌+◌, ◌*◌, ◌≤◌, ◌<◌, arith}
use ai_native_sweng.Context.Tokens.{estimate_tokens}

width-bounds : (o p q : Ordering) → (1 ≤ width o p q) × (width o p q ≤ 4)
width-bounds Ordering.lt p q = (omega arith, omega arith)
width-bounds Ordering.eq Ordering.lt q = (omega arith, omega arith)
width-bounds Ordering.eq Ordering.eq q = ground arith
width-bounds Ordering.eq Ordering.gt q = ground arith
width-bounds Ordering.gt Ordering.lt q = (omega arith, omega arith)
width-bounds Ordering.gt Ordering.eq q = ground arith
width-bounds Ordering.gt Ordering.gt q = ground arith

len_utf8-bounds : (c : Char) → (1 ≤ len_utf8 c) × (len_utf8 c ≤ 4)
len_utf8-bounds c =
    rw (len_utf8_def c)
      (width-bounds (compare (code c) 128) (compare (code c) 2048) (compare (code c) 65536))

len-count : (s : String) → (count s ≤ len s) × (len s ≤ 4 * count s)
len-count String.[] = rw (len.nil, count.nil) (omega arith, omega arith)
len-count (String.◌∷◌ c s) =
    rw (len.cons c s, count.cons c s) (step (len-count s) (len_utf8-bounds c))
  where
    step :
        (count s ≤ len s) × (len s ≤ 4 * count s)
        → (1 ≤ len_utf8 c) × (len_utf8 c ≤ 4)
        → (suc (count s) ≤ len_utf8 c + len s) × (len_utf8 c + len s ≤ 4 * suc (count s))
    step (a, b) (p, q) = (omega arith, omega arith)

-- The estimate is a quarter of the bytes, rounded up: so it is at most one token for each character
-- and at least one for every four. It grows with the text, and a text put together of two costs at
-- most what its parts cost.
pub estimate_tokens_bounds :
    (s t : String)
    → (count s ≤ 4 * estimate_tokens s)
      × (estimate_tokens s ≤ count s)
      × (len s ≤ 4 * estimate_tokens s)
      × (4 * estimate_tokens s < len s + 4)
      × (estimate_tokens s ≤ estimate_tokens (s ++ t))
      × (estimate_tokens (s ++ t) ≤ estimate_tokens s + estimate_tokens t)
unfolding estimate_tokens
estimate_tokens_bounds s t =
    let (a, b) = len-count s in
    rw (len-append s t)
      (omega arith, omega arith, omega arith, omega arith, omega arith, omega arith)
