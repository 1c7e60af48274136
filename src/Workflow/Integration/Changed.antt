-- ===== src/Workflow/Integration/Changed.antt =====
-- The changed paths of a diff are those that its headers name, each once, at its first appearance.
use ai_native_sweng.Prelude.{
  String, true, Option, some, none, List, [], ◌∷◌, ◌++◌, ◌≡◌, refl, sym, ap, ◌∙◌, ◌||◌, ◌==◌,
  if◌then◌else◌, contains, splitlines, arith, eq_iff, append_assoc, append-nil, Bool-cases, inl,
  inr, All, ◌≢◌,
}
use mathlib.Core.Path.{subst}
use ai_native_sweng.Evaluation.Dataset.Accepted.{AreDifferent}
use ai_native_sweng.Workflow.Integration.Headers.{
  Names, AreNamed, no_lines, other_line, no_file, a_path, header_path-Names, header_path-some,
}
use ai_native_sweng.Workflow.Integration.{Found, header_path, add_path, add_paths, changed_paths}

-- the path of a header line, unless it is "/dev/null", in front of the others
unfoldable pub onto : Option String → List String → List String
onto none others = others
onto (some path) others = if path == "/dev/null" then others else path ∷ others

-- the paths of the header lines, in order
unfoldable pub named : List String → List String
unfolding onto
named [] = []
named (line ∷ rest) = onto (header_path line) (named rest)

unfoldable pub leaving_out : List String → List String → List String
leaving_out ps [] = []
leaving_out ps (x ∷ xs) =
    let others = leaving_out ps xs in if contains ps x then others else x ∷ others

-- each text once, where it first appears
unfoldable pub firsts : List String → List String
unfolding leaving_out
firsts [] = []
firsts (x ∷ xs) = x ∷ leaving_out (x ∷ []) (firsts xs)

contains-append :
    (xs : List String) (x y : String) → contains (xs ++ x ∷ []) y ≡ (contains xs y || x == y)
unfolding contains
contains-append [] x y = ground arith
contains-append (z ∷ xs) x y = ground (arith, contains-append xs x y)

leaving_out-append :
    (ps : List String) (x : String) (ys : List String)
    → leaving_out (ps ++ x ∷ []) ys ≡ leaving_out ps (leaving_out (x ∷ []) ys)
unfolding leaving_out contains
leaving_out-append ps x [] = refl
leaving_out-append ps x (y ∷ ys) =
    ground (arith, contains-append ps x y, leaving_out-append ps x ys)

leaving_out-member :
    (ps : List String) (x : String) (ys : List String)
    → contains ps x ≡ true
    → leaving_out ps (leaving_out (x ∷ []) ys) ≡ leaving_out ps ys
unfolding leaving_out contains
leaving_out-member ps x [] h = refl
leaving_out-member ps x (y ∷ ys) h = ground (arith, eq_iff x y, leaving_out-member ps x ys h)

leaving_out_nothing : (ys : List String) → leaving_out [] ys ≡ ys
unfolding leaving_out contains
leaving_out_nothing [] = refl
leaving_out_nothing (y ∷ ys) = rw (leaving_out_nothing ys)

-- `seen` has the members of `paths`
AreSame : Found → Type 0
AreSame found = (p : String) → contains found.seen p ≡ contains found.paths p

add_path-AreSame : (found : Found) (o : Option String) → AreSame found → AreSame (add_path found o)
unfolding add_path contains AreSame
add_path-AreSame found none same p = same p
add_path-AreSame found (some path) same p =
    ground (arith, same p, contains-append found.paths path p)

module _ (found : Found) (same : AreSame found) (others : List String) where
  add_path-onto :
      (o : Option String)
      → (add_path found o).paths ++ leaving_out (add_path found o).paths (firsts others)
        ≡ found.paths ++ leaving_out found.paths (firsts (onto o others))
  unfolding add_path onto firsts leaving_out AreSame
  add_path-onto none = refl
  add_path-onto (some path) = elim (Bool-cases (path == "/dev/null")) [
    | inl null ↦ rw null refl
    | inr proper ↦ rw proper (
        rw (same path) (elim (Bool-cases (contains found.paths path)) [
          | inl old ↦ rw old (
              ap (◌++◌ found.paths) (sym (leaving_out-member found.paths path (firsts others) old)))
          | inr new ↦ rw new (
              append_assoc found.paths (path ∷ []) _
              ∙ ap (λ xs. found.paths ++ path ∷ xs)
                  (leaving_out-append found.paths path (firsts others)))
        ]))
  ]

add_paths-firsts :
    (found : Found) (lines : List String)
    → AreSame found
    → (add_paths found lines).paths ≡ found.paths ++ leaving_out found.paths (firsts (named lines))
unfolding add_paths named firsts leaving_out
add_paths-firsts found [] same = sym (append-nil found.paths)
add_paths-firsts found (line ∷ rest) same =
    add_paths-firsts (add_path found (header_path line)) rest
      (add_path-AreSame found (header_path line) same)
    ∙ add_path-onto found same (named rest) (header_path line)

all-leaving_out {ℓ} :
    (P : String → Type ℓ) (ps ys : List String) → All P ys → All P (leaving_out ps ys)
unfolding leaving_out
all-leaving_out P ps [] h = tt
all-leaving_out P ps (y ∷ ys) h = elim (Bool-cases (contains ps y)) [
  | inl old ↦ rw old (all-leaving_out P ps ys h.1)
  | inr new ↦ rw new (h.0, all-leaving_out P ps ys h.1)
]

leaving_out-AreDifferent :
    (ps ys : List String) → AreDifferent ys → AreDifferent (leaving_out ps ys)
unfolding leaving_out AreDifferent
leaving_out-AreDifferent ps [] h = tt
leaving_out-AreDifferent ps (y ∷ ys) h = elim (Bool-cases (contains ps y)) [
  | inl old ↦ rw old (leaving_out-AreDifferent ps ys h.1)
  | inr new ↦ rw new (all-leaving_out (λ z. y ≢ z) ps ys h.0, leaving_out-AreDifferent ps ys h.1)
]

others-differ : (x : String) (ys : List String) → All (λ y. x ≢ y) (leaving_out (x ∷ []) ys)
unfolding leaving_out contains
others-differ x [] = tt
others-differ x (y ∷ ys) = elim (Bool-cases (x == y)) [
  | inl old ↦ rw old (others-differ x ys)
  | inr new ↦ rw new ((λ e. ground (arith, new, (eq_iff x y).1 e)), others-differ x ys)
]

firsts-AreDifferent : (xs : List String) → AreDifferent (firsts xs)
unfolding AreDifferent firsts
firsts-AreDifferent [] = tt
firsts-AreDifferent (x ∷ xs) = (
  others-differ x (firsts xs),
  leaving_out-AreDifferent (x ∷ []) (firsts xs) (firsts-AreDifferent xs),
)

named-AreNamed : (lines : List String) → AreNamed lines (named lines)
unfolding named onto
named-AreNamed [] = no_lines
named-AreNamed (line ∷ rest) = by_header (header_path line) refl (named-AreNamed rest)
  where
    by_header :
        (o : Option String)
        → header_path line ≡ o
        → AreNamed rest (named rest)
        → AreNamed (line ∷ rest) (onto o (named rest))
    by_header none e later = other_line (λ path n. header_path-some line path n e) later
    by_header (some path) e later = elim (Bool-cases (path == "/dev/null")) [
      | inl null ↦ rw null (
          no_file
            (subst (Names line) ((eq_iff path "/dev/null").0 null) (header_path-Names line path e))
            later)
      | inr proper ↦ rw proper (
          a_path (header_path-Names line path e)
            (λ k. ground (arith, proper, (eq_iff path "/dev/null").1 k)) later)
    ]

-- There are paths that the lines of the diff which start with "+++ b/" or "--- a/" name, in their
-- order and without "/dev/null", whatever part of the diff such a line stands in; `changed_paths`
-- gives each of them once, in the order in which they first appear, and nothing else.
pub changed_paths_lem :
    (diff : String)
    → (ps : List String) × AreNamed (splitlines diff) ps
      × (changed_paths diff ≡ firsts ps)
      × AreDifferent (changed_paths diff)
unfolding changed_paths AreSame
changed_paths_lem diff = (
  named (splitlines diff),
  named-AreNamed (splitlines diff),
  paths_are,
  subst AreDifferent (sym paths_are) (firsts-AreDifferent _),
)
  where
    paths_are : changed_paths diff ≡ firsts (named (splitlines diff))
    paths_are = add_paths-firsts _ (splitlines diff) (λ p. refl) ∙ leaving_out_nothing _
