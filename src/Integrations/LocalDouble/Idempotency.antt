-- ===== src/Integrations/LocalDouble/Idempotency.antt =====
-- A draft pull request is created once for each idempotency key.
use ai_native_sweng.Prelude.{
  ℕ, String, Bool, true, false, Option, none, some, List, [], ◌∷◌, ◌++◌, ◌≡◌, refl, ok,
  if◌then◌else◌, ◌==◌, arith, eq_iff, eq_refl, ap, ◌∙◌, sym,
}
use ai_native_sweng.Json.Value.{Json, str, bool, Dict, end, field, lookup}
use ai_native_sweng.Json.Convert.{Builtins, get, get_or}
use ai_native_sweng.Integrations.LocalDouble.{
  IntegrationRequest, IntegrationResponse, Double, Drafts, insert, find, key_of, create_response,
  create_new, reuse_or_create, create_draft_pr, dispatch, send, draft_of, is_true,
}
use ai_native_sweng.Integrations.LocalDouble.Drafts.{send_all}

lookup-insert :
    (k j : String) (v : Json) (d : Dict)
    → lookup j (insert k v d) ≡ (if k == j then some v else lookup j d)
unfolding lookup insert
lookup-insert k j v end = refl
lookup-insert k j v (field i w rest) =
    ground (arith, eq_iff k j, eq_iff i k, eq_iff i j, lookup-insert k j v rest)

get-insert :
    (k j : String) (v : Json) (d : Dict) → (k == j) ≡ false → get (insert k v d) j ≡ get d j
unfolding get get_or
get-insert k j v d other = ground (arith, lookup-insert k j v d)

get-insert_self : (k : String) (v : Json) (d : Dict) → get (insert k v d) k ≡ v
unfolding get get_or
get-insert_self k v d = ground (arith, lookup-insert k k v d, eq_refl k)

find-snoc :
    (k : String) (pr : Dict) (prs : Drafts)
    → find k prs ≡ none
    → find k (prs ++ (k, pr) ∷ []) ≡ some pr
unfolding find
find-snoc k pr [] h = rw (eq_refl k)
find-snoc k pr ((j, p) ∷ rest) h = ground (arith, find-snoc k pr rest)

-- the number that a response reports
abbrev pub number_of : IntegrationResponse → Json
number_of r = get r.data_of "number"

number_of-create_response :
    (status : ℕ) (pr : Dict) (deduped : Bool)
    → number_of (create_response status pr deduped) ≡ get pr "number"
unfolding create_response
number_of-create_response status pr deduped = get-insert "deduped" "number" (bool deduped) pr refl

-- what a successful create leaves under its key
created :
    (r : IntegrationRequest) (s s' : Double) (resp : IntegrationResponse)
    → create_draft_pr r s ≡ (ok resp, s')
    → (pr : Dict) × (find (key_of r) s'.prs_by_key ≡ some pr) × (number_of resp ≡ get pr "number")
unfolding create_draft_pr
created r s s' resp h =
    by_key (find (key_of r) s.prs_by_key) refl (is_true (get r.body "draft")) refl
  where
    by_key :
        (o : Option Dict)
        → find (key_of r) s.prs_by_key ≡ o
        → (b : Bool) → is_true (get r.body "draft") ≡ b
        → (pr : Dict) × (find (key_of r) s'.prs_by_key ≡ some pr)
          × (number_of resp ≡ get pr "number")
    by_key (some pr) e b d =
        (pr, ground arith, ground (arith, number_of-create_response 200 pr true))
    by_key none e true d =
        let pr = draft_of s.next_pr (get_or r.body "title" (str "")) in
        (
          pr,
          ground (arith, find-snoc (key_of r) pr s.prs_by_key),
          ground (arith, number_of-create_response 201 pr false),
        )
    by_key none e false d = cc

found :
    (r : IntegrationRequest) (s : Double) (pr : Dict)
    → find (key_of r) s.prs_by_key ≡ some pr
    → create_draft_pr r s ≡ (ok (create_response 200 pr true), s)
unfolding create_draft_pr
found r s pr h = ap (λ o. reuse_or_create o r s) h

find-append :
    (k : String) (pr : Dict) (prs others : Drafts)
    → find k prs ≡ some pr
    → find k (prs ++ others) ≡ some pr
unfolding find
find-append k pr [] others h = cc
find-append k pr ((j, p) ∷ rest) others h = ground (arith, find-append k pr rest others)

-- A draft stays under its key, whatever requests follow.
module _ (k : String) (pr : Dict) where
  Kept : Double → Type 0
  Kept s = find k s.prs_by_key ≡ some pr

  create_new-Kept :
      (b : Bool) (r : IntegrationRequest) (s : Double) → Kept s → Kept (create_new b r s).1
  unfolding create_new Kept
  create_new-Kept false r s h = h
  create_new-Kept true r s h = find-append k pr s.prs_by_key _ h

  reuse_or_create-Kept :
      (o : Option Dict) (r : IntegrationRequest) (s : Double)
      → Kept s
      → Kept (reuse_or_create o r s).1
  unfolding reuse_or_create
  reuse_or_create-Kept (some p) r s h = h
  reuse_or_create-Kept none r s h = create_new-Kept (is_true (get r.body "draft")) r s h

  send-Kept : (py : Builtins) (r : IntegrationRequest) (s : Double) → Kept s → Kept (send py r s).1
  unfolding send dispatch create_draft_pr Kept
  send-Kept py r s h =
      let recorded = record s { sent = s.sent ++ r ∷ [] } in
      ground (arith, reuse_or_create-Kept (find (key_of r) s.prs_by_key) r recorded h)

  send_all-Kept :
      (py : Builtins) (rs : List IntegrationRequest) (s : Double) → Kept s → Kept (send_all py rs s)
  unfolding send_all
  send_all-Kept py [] s h = h
  send_all-Kept py (r ∷ rs) s h = send_all-Kept py rs (send py r s).1 (send-Kept py r s h)

-- Once a create has succeeded, whatever requests are sent next, every later create with the same
-- idempotency key, whatever its body asks for, succeeds with status 200, reports the same pull
-- request number, is marked as deduplicated and changes no state.
pub create_draft_pr_twice :
    (py : Builtins) (r r' : IntegrationRequest) (rs : List IntegrationRequest) (s s' : Double)
    (resp : IntegrationResponse)
    → create_draft_pr r s ≡ (ok resp, s')
    → key_of r' ≡ key_of r
    → (resp' : IntegrationResponse) × (create_draft_pr r' (send_all py rs s')
        ≡ (ok resp', send_all py rs s'))
      × (resp'.status ≡ 200)
      × (number_of resp' ≡ number_of resp)
      × (get resp'.data_of "deduped" ≡ bool true)
unfolding create_response Kept
create_draft_pr_twice py r r' rs s s' resp h same =
    let (pr, kept, number) = created r s s' resp h in
    let later = send_all-Kept (key_of r) pr py rs s' kept in
    (
      create_response 200 pr true,
      found r' (send_all py rs s') pr
          (ap (λ k. find k (send_all py rs s').prs_by_key) same ∙ later),
      refl,
      number_of-create_response 200 pr true ∙ sym number,
      get-insert_self "deduped" (bool true) pr,
    )
