-- ===== src/Demo/Facts.antt =====
-- The table `facts` of the demo, and `projectionNames`.
use inc_ql.Base.{ℕ, String, List, [], ◌∷◌}

pub record Projection : Type 0 where
  pub content : String
  pub tokens : ℕ

pub record Fact : Type 0 where
  pub id : String
  pub title : String
  pub reference : String
  pub detail : String
  pub source : String
  pub projections : List (String × Projection)

abbrev activation : Fact
activation = record {
  id = "activation";
  title = "Memory activation contract";
  reference = "KnowledgeRevision:northbridge-memory-activation-contract@1";
  detail =
      "A Minutary recall supplies a bounded atom set. Changing topic replaces the agent focus instead of rebuilding the conversation history.";
  source = "Northbridge architecture review, 28 August 2026";
  projections =
      (
        "abstract",
        record {
          content =
              "A recalled meeting swaps a bounded atom set; conversation history remains unchanged.";
          tokens = 12;
        },
      )
      ∷ (
        "overview",
        record {
          content =
              "Minutary supplies a bounded memory-atom set for one recall. A topic change replaces the active focus, preserving the original conversation history and its evidence trace.";
          tokens = 25;
        },
      )
      ∷ (
        "evidence",
        record {
          content =
              "Architecture decision: changing topic replaces the agent focus rather than rebuilding the conversation history.";
          tokens = 15;
        },
      )
      ∷ [];
}

abbrev local : Fact
local = record {
  id = "local";
  title = "Local-only boundary";
  reference = "KnowledgeRevision:northbridge-local-only-boundary@1";
  detail =
      "Pilot knowledge stays in the on-device workspace. No client document or embedding is sent to a remote provider by default.";
  source = "Northbridge product checkpoint, 28 August 2026";
  projections =
      (
        "abstract",
        record {
          content = "Northbridge pilot knowledge remains on-device by default.";
          tokens = 7;
        },
      )
      ∷ (
        "overview",
        record {
          content =
              "The product checkpoint keeps client documents and embeddings in the local workspace. The approved pilot boundary remains pinned to the reviewed knowledge revision.";
          tokens = 24;
        },
      )
      ∷ (
        "evidence",
        record {
          content =
              "Reviewed pilot boundary: no client document or embedding is sent to a remote provider by default.";
          tokens = 17;
        },
      )
      ∷ [];
}

abbrev release : Fact
release = record {
  id = "release";
  title = "Pilot release gate";
  reference = "KnowledgeRevision:northbridge-pilot-release-gate@1";
  detail =
      "Before the 17 September review, the build needs an inspectable package receipt and an offline fallback for every recalled answer.";
  source = "Northbridge architecture review, 28 August 2026";
  projections =
      (
        "abstract",
        record {
          content = "Pilot delivery needs an inspectable receipt and offline recalled answers.";
          tokens = 10;
        },
      )
      ∷ (
        "overview",
        record {
          content =
              "Before the 17 September review, the pilot must carry an inspectable package receipt and an offline fallback for every recalled answer.";
          tokens = 22;
        },
      )
      ∷ (
        "evidence",
        record {
          content =
              "Release evidence: attach a package receipt and an offline fallback for every recalled answer.";
          tokens = 16;
        },
      )
      ∷ [];
}

abbrev performance : Fact
performance = record {
  id = "performance";
  title = "Memory performance budget";
  reference = "KnowledgeRevision:northbridge-memory-performance-budget@1";
  detail =
      "A recalled meeting may contribute at most 48 atoms. Focus switching and constrained retrieval are benchmarked separately.";
  source = "Northbridge architecture review, 28 August 2026";
  projections =
      (
        "abstract",
        record { content = "A recalled meeting contributes at most 48 active atoms."; tokens = 9 },
      )
      ∷ (
        "overview",
        record {
          content =
              "A recalled meeting may contribute no more than 48 atoms. Focus switching and bounded retrieval have separate performance measurements.";
          tokens = 19;
        },
      )
      ∷ (
        "evidence",
        record {
          content =
              "Performance constraint: benchmark a bounded 48-atom recall set separately from focus switching.";
          tokens = 14;
        },
      )
      ∷ [];
}

abbrev risk : Fact
risk = record {
  id = "risk";
  title = "Finance export risk";
  reference = "KnowledgeRevision:northbridge-finance-export-risk@1";
  detail =
      "The finance workstream's export taxonomy remains under review and is not part of the product checkpoint or architecture recall.";
  source = "Northbridge finance status, 27 August 2026";
  projections =
      (
        "abstract",
        record {
          content = "Finance export taxonomy remains outside the active Northbridge recall.";
          tokens = 10;
        },
      )
      ∷ (
        "overview",
        record {
          content =
              "The finance workstream's export taxonomy is still under review and does not belong to the product checkpoint or architecture recall.";
          tokens = 21;
        },
      )
      ∷ (
        "evidence",
        record {
          content =
              "Scope exclusion: finance export taxonomy is not part of this product checkpoint or architecture recall.";
          tokens = 16;
        },
      )
      ∷ [];
}

abbrev pub facts : List Fact
facts = activation ∷ local ∷ release ∷ performance ∷ risk ∷ []

abbrev pub projection_names : List (String × String)
projection_names =
    ("abstract", "Abstract") ∷ ("overview", "Overview") ∷ ("evidence", "Evidence excerpt") ∷ []
