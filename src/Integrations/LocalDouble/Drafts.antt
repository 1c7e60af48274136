-- ===== src/Integrations/LocalDouble/Drafts.antt =====
-- What holds of the recorded pull requests after any requests: all are drafts, and they are
-- numbered from 101 in the order of their creation.
use ai_native_sweng.Prelude.{
  ap, length-append, ℕ, suc, ◌+◌, String, Bool, true, false, Option, none, some, List, [], ◌∷◌,
  ◌++◌, ◌≡◌, refl, arith, length,
}
use ai_native_sweng.Json.Value.{ℤ, pos, int, Json, bool, Dict, str}
use ai_native_sweng.Json.Convert.{Builtins, get, get_or, reading}
use ai_native_sweng.Integrations.LocalDouble.{
  IntegrationRequest, Double, Drafts, new, find, key_of, draft_of, is_true, create_new,
  reuse_or_create, create_draft_pr, dispatch, send,
}

-- Each entry is a draft, and the entries carry the numbers from `n` on.
pub AreDrafts : ℕ → Drafts → Type 0
AreDrafts n [] = Unit
AreDrafts n ((k, pr) ∷ rest) =
    (get pr "draft" ≡ bool true) × (get pr "number" ≡ int (pos n)) × AreDrafts (suc n) rest

pub record IsSafe (s : Double) : Type 0 where
  pub drafts : AreDrafts 101 s.prs_by_key
  pub count : s.next_pr ≡ 101 + length s.prs_by_key

AreDrafts-snoc :
    (n m : ℕ) (prs : Drafts) (k : String) (title : Json)
    → m ≡ n + length prs
    → AreDrafts n prs
    → AreDrafts n (prs ++ (k, draft_of m title) ∷ [])
unfolding AreDrafts draft_of reading
AreDrafts-snoc n m [] k title e h = (refl, ap (λ i. int (pos i)) (omega arith), tt)
AreDrafts-snoc n m ((j, pr) ∷ rest) k title e h =
    (h.0, h.1, AreDrafts-snoc (suc n) m rest k title (omega arith) h.2)

create_new-IsSafe :
    (b : Bool) (r : IntegrationRequest) (s : Double) → IsSafe s → IsSafe (create_new b r s).1
unfolding create_new
create_new-IsSafe false r s h = h
create_new-IsSafe true r s h =
    let title = get_or r.body "title" (str "") in
    record {
      drafts = AreDrafts-snoc 101 s.next_pr s.prs_by_key (key_of r) title h.count h.drafts;
      count =
          omega (
            arith,
            h.count,
            length-append s.prs_by_key ((key_of r, draft_of s.next_pr title) ∷ []),
          );
    }

reuse_or_create-IsSafe :
    (o : Option Dict) (r : IntegrationRequest) (s : Double)
    → IsSafe s
    → IsSafe (reuse_or_create o r s).1
unfolding reuse_or_create
reuse_or_create-IsSafe (some pr) r s h = h
reuse_or_create-IsSafe none r s h = create_new-IsSafe (is_true (get r.body "draft")) r s h

module _ (py : Builtins) where
  send-IsSafe : (r : IntegrationRequest) (s : Double) → IsSafe s → IsSafe (send py r s).1
  unfolding send dispatch create_draft_pr
  send-IsSafe r s h = ground (
    arith,
    reuse_or_create-IsSafe (find (key_of r) s.prs_by_key) r (record s { sent = s.sent ++ r ∷ [] })
        (record { drafts = h.drafts; count = h.count }),
  )

  -- The requests of a run, each sent whatever became of the ones before.
  unfoldable pub send_all : List IntegrationRequest → Double → Double
  send_all [] s = s
  send_all (r ∷ rs) s = send_all rs (send py r s).1

  -- Whatever requests reach a safe double, it stays safe: every pull request that it records is a
  -- draft, they are numbered from 101 in the order of creation, and the next number is the first
  -- free one.
  pub send_all-IsSafe :
      (rs : List IntegrationRequest) (s : Double) → IsSafe s → IsSafe (send_all rs s)
  unfolding send_all
  send_all-IsSafe [] s h = h
  send_all-IsSafe (r ∷ rs) s h = send_all-IsSafe rs (send py r s).1 (send-IsSafe r s h)

pub new-IsSafe : (issues : ℤ → Option Dict) (ci : String → Option Dict) → IsSafe (new issues ci)
unfolding new AreDrafts
new-IsSafe issues ci = record { drafts = tt; count = omega arith }
