-- ===== src/Demo/Focus.antt =====
-- The table `focusStates` of the demo.
use inc_ql.Base.{ℕ, String, List, [], ◌∷◌}

pub record Hop : Type 0 where
  pub kind : String
  pub title : String
  pub reference : String

pub record Focus : Type 0 where
  pub timeline : String
  pub name : String
  pub source_memory : String
  pub snapshot : ℕ
  pub trace : String
  pub receipt : String
  pub question : String
  pub atom_ids : List String
  pub selected_id : String
  pub status : String
  pub scope_path : List Hop

abbrev product : Focus
product = record {
  timeline = "product";
  name = "Product checkpoint focus";
  source_memory = "ConversationMemoryRevision:northbridge-product-checkpoint:turn-004@1";
  snapshot = 28;
  trace = "northbridge-product-checkpoint";
  receipt = "receipt:northbridge-product-checkpoint-v1";
  question = "What constraint should guide the product checkpoint?";
  atom_ids = "local" ∷ "release" ∷ [];
  selected_id = "local";
  status = "Active now";
  scope_path =
      record {
        kind = "Conversation";
        title = "Northbridge product checkpoint";
        reference = "ConversationMemoryRevision:northbridge-product-checkpoint:turn-004@1";
      }
      ∷ record {
        kind = "Memory atom";
        title = "Local-only boundary";
        reference = "KnowledgeRevision:northbridge-local-only-boundary@1";
      }
      ∷ [];
}

abbrev pub meeting : Focus
meeting = record {
  timeline = "meeting";
  name = "Minutary architecture recall";
  source_memory =
      "ConversationMemoryRevision:northbridge-product-checkpoint:minutary:northbridge-architecture-2026-08-28@1";
  snapshot = 30;
  trace = "northbridge-architecture-recall";
  receipt = "receipt:northbridge-architecture-recall-v1";
  question = "What did the architecture review decide about meeting recall?";
  atom_ids = "activation" ∷ "performance" ∷ "release" ∷ [];
  selected_id = "activation";
  status = "Recall active now";
  scope_path =
      record {
        kind = "Conversation";
        title = "Northbridge product checkpoint";
        reference = "ConversationMemoryRevision:northbridge-product-checkpoint:turn-004@1";
      }
      ∷ record {
        kind = "Meeting";
        title = "Minutary architecture recall";
        reference =
            "ConversationMemoryRevision:northbridge-product-checkpoint:minutary:northbridge-architecture-2026-08-28@1";
      }
      ∷ record {
        kind = "Decision";
        title = "Architecture review minutes";
        reference = "MeetingMinutesRevision:northbridge-architecture-2026-08-28@1";
      }
      ∷ record {
        kind = "Memory atom";
        title = "Memory activation contract";
        reference = "KnowledgeRevision:northbridge-memory-activation-contract@1";
      }
      ∷ [];
}

abbrev restored : Focus
restored = record {
  timeline = "restored";
  name = "Product checkpoint restored";
  source_memory = "ConversationMemoryRevision:northbridge-product-checkpoint:turn-004@1";
  snapshot = 32;
  trace = "northbridge-product-checkpoint-restored";
  receipt = "receipt:northbridge-product-checkpoint-restored-v1";
  question = "What constraint should guide the product checkpoint?";
  atom_ids = "local" ∷ "release" ∷ [];
  selected_id = "local";
  status = "Focus restored";
  scope_path =
      record {
        kind = "Conversation";
        title = "Northbridge product checkpoint";
        reference = "ConversationMemoryRevision:northbridge-product-checkpoint:turn-004@1";
      }
      ∷ record {
        kind = "Memory atom";
        title = "Local-only boundary";
        reference = "KnowledgeRevision:northbridge-local-only-boundary@1";
      }
      ∷ [];
}

abbrev pub focus_states : List (String × Focus)
focus_states = ("product", product) ∷ ("meeting", meeting) ∷ ("restored", restored) ∷ []
