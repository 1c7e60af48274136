-- ===== src/Context/Packet/Faithful.antt =====
-- The payload of a context packet loses nothing: there is a reader that gives the packet back.
use ai_native_sweng.Prelude.{
  String, List, [], ◌∷◌, ◌≡◌, refl, sym, ap, ◌∙◌, Result, ok, err, map, traverse, traverse-map,
  ◌>>=◌, member, value_error,
}
use ai_native_sweng.Json.Value.{ℤ, Json, str, Dict, items_list-items}
use ai_native_sweng.Json.Convert.{
  Builtins, reading, index, subscripted, iterate, as_str, as_int, as_strings, as_strings-strings,
  optional_of, optional_str,
}
use ai_native_sweng.Security.Config.{items_of}
use ai_native_sweng.Security.Config.RoundTrip.{entries-dict}
use ai_native_sweng.Context.Packet.{
  TrustLevel, platform_trusted, human_approved, validated_artifact, repository_trusted,
  repository_untrusted, model_generated_unvalidated, external_untrusted, trust_value, trust_order,
  InstructionConflict, Symbol, FileExcerpt, FreshnessRecord, Omission, PacketInstructions,
  PacketEvidence, PacketConstraints, PacketProvenance, PacketSummary, ContextPacket, excerpt_entry,
  symbol_entry, freshness_entry, conflict_entry, omission_entry, packet_payload,
}

module _ (py : Builtins) where
  text_at : Dict → String → Result String
  text_at d k = do v ← index d k; ok (as_str py v)

  texts_at : Dict → String → Result (List String)
  texts_at d k = do v ← index d k; as_strings py v

  int_at : Dict → String → Result ℤ
  int_at d k = do v ← index d k; as_int py v

  read_excerpt : Json → Result FileExcerpt
  read_excerpt v = do
    d ← subscripted v
    path ← text_at d "path"
    content ← text_at d "content"
    ok (record { path = path; content = content })

  read_excerpt-entry : (r : FileExcerpt) → read_excerpt (excerpt_entry r) ≡ ok r
  unfolding read_excerpt excerpt_entry reading text_at
  read_excerpt-entry r = refl

  read_symbol : Json → Result Symbol
  read_symbol v = do
    d ← subscripted v
    name ← text_at d "name"
    kind ← text_at d "kind"
    file' ← text_at d "file"
    line ← int_at d "line"
    receiver_raw ← index d "receiver"
    receiver ← optional_of (λ j. ok (as_str py j)) receiver_raw
    ok (record { name = name; kind = kind; file = file'; line = line; receiver = receiver })

  read_symbol-entry : (s : Symbol) → read_symbol (symbol_entry s) ≡ ok s
  unfolding read_symbol symbol_entry reading text_at int_at
  read_symbol-entry s = rw (optional_str py s.receiver) refl

  read_freshness : Json → Result FreshnessRecord
  read_freshness v = do
    d ← subscripted v
    revision ← text_at d "revision"
    extracted_at ← text_at d "extracted_at"
    method ← text_at d "method"
    ok (record { revision = revision; extracted_at = extracted_at; method = method })

  read_freshness-entry : (r : FreshnessRecord) → read_freshness (freshness_entry r) ≡ ok r
  unfolding read_freshness freshness_entry reading text_at
  read_freshness-entry r = refl

  read_conflict : Json → Result InstructionConflict
  read_conflict v = do
    d ← subscripted v
    topic ← text_at d "topic"
    sources ← texts_at d "sources"
    claims ← texts_at d "claims"
    resolution ← text_at d "resolution"
    ok (record { topic = topic; sources = sources; claims = claims; resolution = resolution })

  read_conflict-entry : (c : InstructionConflict) → read_conflict (conflict_entry c) ≡ ok c
  unfolding read_conflict conflict_entry reading text_at texts_at
  read_conflict-entry c = rw (as_strings-strings py c.sources, as_strings-strings py c.claims) refl

  read_omission : Json → Result Omission
  read_omission v = do
    d ← subscripted v
    omitted ← text_at d "item"
    reason ← text_at d "reason"
    tokens ← int_at d "tokens"
    ok (record { omitted = omitted; reason = reason; tokens = tokens })

  read_omission-entry : (o : Omission) → read_omission (omission_entry o) ≡ ok o
  unfolding read_omission omission_entry reading text_at int_at
  read_omission-entry o = refl

  read_trust : Json → Result TrustLevel
  read_trust v = member trust_value trust_order (as_str py v)

  read_trust-value : (t : TrustLevel) → read_trust (str (trust_value t)) ≡ ok t
  unfolding read_trust member trust_value as_str
  read_trust-value platform_trusted = refl
  read_trust-value human_approved = refl
  read_trust-value validated_artifact = refl
  read_trust-value repository_trusted = refl
  read_trust-value repository_untrusted = refl
  read_trust-value model_generated_unvalidated = refl
  read_trust-value external_untrusted = refl

module _ {A : Type 0} (read : Json → Result A) where
  pair_read : String × Json → Result (String × A)
  pair_read (k, v) = do x ← read v; ok (k, x)

  pairs_back :
      (write : A → Json)
      → ((x : A) → read (write x) ≡ ok x)
      → (xs : List (String × A)) → traverse pair_read (map (λ (k, v). (k, write v)) xs) ≡ ok xs
  unfolding traverse pair_read
  pairs_back write back [] = refl
  pairs_back write back ((k, x) ∷ xs) = rw (back x, pairs_back write back xs) refl

module _ (py : Builtins) where
  list_at : {A : Type 0} → (Json → Result A) → Dict → String → Result (List A)
  list_at read d k = do v ← index d k; xs ← iterate v; traverse read xs

  pairs_at : {A : Type 0} → (Json → Result A) → Dict → String → Result (List (String × A))
  pairs_at read d k = do v ← index d k; xs ← items_of v; traverse (pair_read read) xs

  object_at : Dict → String → Result Dict
  object_at d k = do v ← index d k; subscripted v

  read_instructions : Dict → Result PacketInstructions
  read_instructions d = do
    platform ← texts_at py d "platform"
    repository ← list_at (read_excerpt py) d "repository"
    worker ← texts_at py d "worker"
    task ← texts_at py d "task"
    ok (record { platform = platform; repository = repository; worker = worker; task = task })

  read_evidence : Dict → Result PacketEvidence
  read_evidence d = do
    files ← list_at (read_excerpt py) d "files"
    symbols ← list_at (read_symbol py) d "symbols"
    tests ← list_at (read_excerpt py) d "tests"
    architecture_records ← list_at (read_excerpt py) d "architecture_records"
    prior_artifacts ← texts_at py d "prior_artifacts"
    ok (record {
      files = files;
      symbols = symbols;
      tests = tests;
      architecture_records = architecture_records;
      prior_artifacts = prior_artifacts;
    })

  read_constraints : Dict → Result PacketConstraints
  read_constraints d = do
    token_budget ← int_at py d "token_budget"
    excluded_paths ← texts_at py d "excluded_paths"
    prohibited_sources ← texts_at py d "prohibited_sources"
    ok (record {
      token_budget = token_budget;
      excluded_paths = excluded_paths;
      prohibited_sources = prohibited_sources;
    })

  read_provenance : Dict → Result PacketProvenance
  read_provenance d = do
    source_revision ← text_at py d "source_revision"
    selection_reasons ← pairs_at (λ v. ok (as_str py v)) d "selection_reasons"
    trust_classifications ← pairs_at (read_trust py) d "trust_classifications"
    freshness ← pairs_at (read_freshness py) d "freshness"
    ok (record {
      source_revision = source_revision;
      selection_reasons = selection_reasons;
      trust_classifications = trust_classifications;
      freshness = freshness;
    })

  read_summary : Dict → Result PacketSummary
  read_summary d = do
    token_estimate ← int_at py d "token_estimate"
    omissions ← list_at (read_omission py) d "omissions"
    ok (record { token_estimate = token_estimate; omissions = omissions })

  read_packet : Dict → Result ContextPacket
  read_packet d = do
    context_packet_id ← text_at py d "context_packet_id"
    worker_type ← text_at py d "worker_type"
    task_id ← text_at py d "task_id"
    repository_revision ← text_at py d "repository_revision"
    created_at ← text_at py d "created_at"
    instructions_raw ← object_at d "instructions"
    instructions ← read_instructions instructions_raw
    evidence_raw ← object_at d "evidence"
    evidence ← read_evidence evidence_raw
    constraints_raw ← object_at d "constraints"
    constraints ← read_constraints constraints_raw
    provenance_raw ← object_at d "provenance"
    provenance ← read_provenance provenance_raw
    conflicts_raw ← object_at d "conflicts"
    conflicts ← list_at (read_conflict py) conflicts_raw "items"
    summary_raw ← object_at d "summary"
    summary ← read_summary summary_raw
    ok (record {
      context_packet_id = context_packet_id;
      worker_type = worker_type;
      task_id = task_id;
      repository_revision = repository_revision;
      created_at = created_at;
      instructions = instructions;
      evidence = evidence;
      constraints = constraints;
      provenance = provenance;
      conflicts = record { items = conflicts };
      summary = summary;
    })

  text_back : (s : String) → ok (as_str py (str s)) ≡ ok s
  unfolding as_str
  text_back s = refl

  read_packet-packet_payload : (p : ContextPacket) → read_packet (packet_payload p) ≡ ok p
  unfolding read_packet packet_payload reading read_instructions read_evidence read_constraints
      read_provenance read_summary list_at pairs_at object_at text_at texts_at int_at items_of
  read_packet-packet_payload p = simp (
    items_list-items,
    as_strings-strings py,
    entries-dict,
    traverse-map (read_excerpt py) excerpt_entry (read_excerpt-entry py),
    traverse-map (read_symbol py) symbol_entry (read_symbol-entry py),
    traverse-map (read_conflict py) conflict_entry (read_conflict-entry py),
    traverse-map (read_omission py) omission_entry (read_omission-entry py),
    pairs_back (λ v. ok (as_str py v)) str text_back,
    pairs_back (read_trust py) (λ t. str (trust_value t)) (read_trust-value py),
    pairs_back (read_freshness py) freshness_entry (read_freshness-entry py),
  )

-- builtins for the reader above, which calls none of them on a payload
abbrev no_builtins : Builtins
no_builtins = record {
  repr = λ v. "";
  int_of = λ v. err value_error;
  float_of = λ v. err value_error;
  dict_of = λ v. err value_error;
}

-- Two context packets with the same payload are the same packet.
pub packet_payload-injective : (p q : ContextPacket) → packet_payload p ≡ packet_payload q → p ≡ q
packet_payload-injective p q same =
    ap (λ r. elim r [ ok x ↦ x | err e ↦ p ])
      (sym (read_packet-packet_payload no_builtins p)
        ∙ (ap (read_packet no_builtins) same ∙ read_packet-packet_payload no_builtins q))
