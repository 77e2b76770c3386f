-- ===== src/Tests/Samples.antt =====
-- A platform for ASCII texts, records and a repository.

use evoeventmem.Prelude.{String, false, none, some, [], ◌∷◌}
use evoeventmem.Domain.Text.{split}
use evoeventmem.Domain.Models.{MemoryRecord, EvidenceRef, fact, active}
use evoeventmem.Platform.{Platform}
use evoeventmem.Repository.InMemory.{Store}

abbrev pub platform : Platform
platform = record {
  casefold = λ c. String.◌∷◌ c String.[];
  tokens = split;
  isoformat = λ t. "2026-08-01T00:00:00+00:00";
  dump_time = λ t. "2026-08-01T00:00:00Z";
  uuid_str = λ u. "0";
  dumps = λ v. "{}";
  sha256 = λ s. s;
  error_text = λ e. "invalid";
}

abbrev pub message : EvidenceRef
message = record {
  source_type = "session";
  source_id = "s1";
  locator = some "chars=0:9";
  quote = none;
  metadata = [];
}

abbrev pub tea : MemoryRecord
tea = record {
  memory_id = 1;
  tenant_id = some "acme";
  user_id = "ada";
  session_id = none;
  memory_kind = fact;
  content = "likes  tea";
  normalized_content = some "likes tea";
  entities = [];
  roles = [];
  relations = [];
  evidence_refs = message ∷ [];
  event_time = some 100;
  valid_from = none;
  valid_to = none;
  status = active;
  supersedes = [];
  superseded_by = none;
  derived_from = [];
  derivation = none;
  synthetic = false;
  confidence = 0;
  utility = 0;
  embedding_version = none;
  metadata = [];
  created_at = 10;
  updated_at = 10;
}

abbrev pub coffee : MemoryRecord
coffee = record tea {
  memory_id = 2;
  content = "likes coffee";
  normalized_content = some "likes coffee";
  event_time = some 200;
}

abbrev pub one_item : Store
one_item = record { items = (1, tea) ∷ []; transaction_active = false }

abbrev pub two_items : Store
two_items = record { items = (1, tea) ∷ (2, coffee) ∷ []; transaction_active = false }
