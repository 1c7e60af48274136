-- ===== src/Context/Packet.antt =====
-- src/anse_harness/context/packet.py: the context packet and its payload, with the records of
-- instructions/precedence.py and repository/symbols.py that it holds. Building a packet raises in the
-- source.
pub mod Faithful
use ai_native_sweng.Prelude.{String, Option, List, [], ◌∷◌, map}
use ai_native_sweng.Json.Value.{ℤ, Json, int, str, Dict, dict, object, array, strings, optional}

pub data TrustLevel : Type 0 where
  platform_trusted human_approved validated_artifact repository_trusted repository_untrusted :
      TrustLevel
  model_generated_unvalidated external_untrusted : TrustLevel

unfoldable pub trust_value : TrustLevel → String
trust_value platform_trusted = "platform-trusted"
trust_value human_approved = "human-approved"
trust_value validated_artifact = "validated-artifact"
trust_value repository_trusted = "repository-trusted"
trust_value repository_untrusted = "repository-untrusted"
trust_value model_generated_unvalidated = "model-generated-unvalidated"
trust_value external_untrusted = "external-untrusted"

-- TRUST_ORDER
abbrev pub trust_order : List TrustLevel
trust_order =
    platform_trusted ∷ human_approved ∷ validated_artifact ∷ repository_trusted
    ∷ repository_untrusted ∷ model_generated_unvalidated ∷ external_untrusted ∷ []

pub record InstructionConflict : Type 0 where
  pub topic : String
  pub sources : List String
  pub claims : List String
  pub resolution : String

pub record Symbol : Type 0 where
  pub name : String
  pub kind : String
  pub file : String
  pub line : ℤ
  pub receiver : Option String

pub record FileExcerpt : Type 0 where
  pub path : String
  pub content : String

pub record FreshnessRecord : Type 0 where
  pub revision : String
  pub extracted_at : String
  pub method : String

pub record Omission : Type 0 where
  pub omitted : String
  pub reason : String
  pub tokens : ℤ

pub record PacketInstructions : Type 0 where
  pub platform : List String
  pub repository : List FileExcerpt
  pub worker : List String
  pub task : List String

pub record PacketEvidence : Type 0 where
  pub files : List FileExcerpt
  pub symbols : List Symbol
  pub tests : List FileExcerpt
  pub architecture_records : List FileExcerpt
  pub prior_artifacts : List String

pub record PacketConstraints : Type 0 where
  pub token_budget : ℤ
  pub excluded_paths : List String
  pub prohibited_sources : List String

pub record PacketProvenance : Type 0 where
  pub source_revision : String
  pub selection_reasons : List (String × String)
  pub trust_classifications : List (String × TrustLevel)
  pub freshness : List (String × FreshnessRecord)

pub record PacketSummary : Type 0 where
  pub token_estimate : ℤ
  pub omissions : List Omission

pub record PacketConflicts : Type 0 where
  pub items : List InstructionConflict

pub record ContextPacket : Type 0 where
  pub context_packet_id : String
  pub worker_type : String
  pub task_id : String
  pub repository_revision : String
  pub created_at : String
  pub instructions : PacketInstructions
  pub evidence : PacketEvidence
  pub constraints : PacketConstraints
  pub provenance : PacketProvenance
  pub conflicts : PacketConflicts
  pub summary : PacketSummary

unfoldable pub excerpt_entry : FileExcerpt → Json
excerpt_entry r = object (("path", str r.path) ∷ ("content", str r.content) ∷ [])

-- the local function `excerpts`
abbrev pub excerpts : List FileExcerpt → Json
excerpts records = array (map excerpt_entry records)

unfoldable pub symbol_entry : Symbol → Json
symbol_entry s = object (
    ("name", str s.name)
    ∷ ("kind", str s.kind)
    ∷ ("file", str s.file)
    ∷ ("line", int s.line)
    ∷ ("receiver", optional str s.receiver)
    ∷ [])

unfoldable pub freshness_entry : FreshnessRecord → Json
freshness_entry r = object (
    ("revision", str r.revision)
    ∷ ("extracted_at", str r.extracted_at)
    ∷ ("method", str r.method)
    ∷ [])

unfoldable pub conflict_entry : InstructionConflict → Json
conflict_entry c = object (
    ("topic", str c.topic)
    ∷ ("sources", strings c.sources)
    ∷ ("claims", strings c.claims)
    ∷ ("resolution", str c.resolution)
    ∷ [])

unfoldable pub omission_entry : Omission → Json
omission_entry o =
    object (("item", str o.omitted) ∷ ("reason", str o.reason) ∷ ("tokens", int o.tokens) ∷ [])

-- {k: write(v) for k, v in entries}
abbrev pub by_path {ℓ} : {A : Type ℓ} → (A → Json) → List (String × A) → Json
by_path write items = object (map (λ (k, v). (k, write v)) items)

-- ContextPacket.to_payload
unfoldable pub packet_payload : ContextPacket → Dict
unfolding excerpt_entry symbol_entry freshness_entry conflict_entry omission_entry trust_value
packet_payload p = dict (
    ("context_packet_id", str p.context_packet_id)
    ∷ ("worker_type", str p.worker_type)
    ∷ ("task_id", str p.task_id)
    ∷ ("repository_revision", str p.repository_revision)
    ∷ ("created_at", str p.created_at)
    ∷ (
      "instructions",
      object (
          ("platform", strings p.instructions.platform)
          ∷ ("repository", excerpts p.instructions.repository)
          ∷ ("worker", strings p.instructions.worker)
          ∷ ("task", strings p.instructions.task)
          ∷ []),
    )
    ∷ (
      "evidence",
      object (
          ("files", excerpts p.evidence.files)
          ∷ ("symbols", array (map symbol_entry p.evidence.symbols))
          ∷ ("tests", excerpts p.evidence.tests)
          ∷ ("architecture_records", excerpts p.evidence.architecture_records)
          ∷ ("prior_artifacts", strings p.evidence.prior_artifacts)
          ∷ []),
    )
    ∷ (
      "constraints",
      object (
          ("token_budget", int p.constraints.token_budget)
          ∷ ("excluded_paths", strings p.constraints.excluded_paths)
          ∷ ("prohibited_sources", strings p.constraints.prohibited_sources)
          ∷ []),
    )
    ∷ (
      "provenance",
      object (
          ("source_revision", str p.provenance.source_revision)
          ∷ ("selection_reasons", by_path str p.provenance.selection_reasons)
          ∷ (
            "trust_classifications",
            by_path (λ t. str (trust_value t)) p.provenance.trust_classifications,
          )
          ∷ ("freshness", by_path freshness_entry p.provenance.freshness)
          ∷ []),
    )
    ∷ ("conflicts", object (("items", array (map conflict_entry p.conflicts.items)) ∷ []))
    ∷ (
      "summary",
      object (
          ("token_estimate", int p.summary.token_estimate)
          ∷ ("omissions", array (map omission_entry p.summary.omissions))
          ∷ []),
    )
    ∷ [])
