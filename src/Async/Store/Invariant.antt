-- ===== src/Async/Store/Invariant.antt =====
-- The states of the repository that calls reach.
use evoeventmem.Prelude.{
  ℕ, ◌≡◌, refl, ◌↔◌, String, false, none, some, [], length, arith, ==_iff, nat_eq, string_eq,
}
use evoeventmem.Prelude.Dict
use evoeventmem.Prelude.Dict.{get-put}
use evoeventmem.Result.{ok}
use evoeventmem.Domain.Models.{MemoryRecord}
use evoeventmem.Rules.Scope.{RequestScope}
use evoeventmem.Async.Types.{EmbeddingVector}
use evoeventmem.Async.Store.{AsyncStore, create, check_vector, add, update, close, stored}

-- A call that changes the repository.
pub data Step : AsyncStore → AsyncStore → Type 0 where
  adds :
      {s s' : AsyncStore} (scope : RequestScope) (m saved : MemoryRecord) (vector : EmbeddingVector)
      → add s scope m vector ≡ ok (s', saved)
      → Step s s'
  updates :
      {s s' : AsyncStore} (scope : RequestScope) (m saved : MemoryRecord) (vector : EmbeddingVector)
      (now : ℕ)
      → update s scope m vector now ≡ ok (s', saved)
      → Step s s'
  closes : {s s' : AsyncStore} → s' ≡ close s → Step s s'

-- The states that calls reach from a repository that `__init__` built.
pub data Reached : AsyncStore → Type 0 where
  created :
      {s : AsyncStore} (model_id : String) (dimension : ℕ) (schema_version : String)
      → create model_id dimension schema_version ≡ ok s
      → Reached s
  called : {s s' : AsyncStore} → Reached s → Step s s' → Reached s'

-- A vector that the repository accepts.
abbrev pub Fits : AsyncStore → EmbeddingVector → Type 0
Fits s vector =
    (vector.model_id ≡ s.model_id)
    × (vector.dimension ≡ s.dimension)
    × (length vector.values ≡ s.dimension)

-- Records and vectors stand under the same ids, each record under its own, and each vector fits.
pub record IsConsistent (s : AsyncStore) : Type 0 where
  pub paired : (id : ℕ) → (Dict.get s.items id ≡ none) ↔ (Dict.get s.vectors id ≡ none)
  pub keyed : (id : ℕ) (m : MemoryRecord) → Dict.get s.items id ≡ some m → m.memory_id ≡ id
  pub fitting : (id : ℕ) (v : EmbeddingVector) → Dict.get s.vectors id ≡ some v → Fits s v

Fits-check_vector : (s : AsyncStore) (v : EmbeddingVector) → check_vector s v ≡ ok tt → Fits s v
unfolding check_vector
Fits-check_vector s v h = ground (
  arith,
  ==_iff v.model_id s.model_id,
  ==_iff v.dimension s.dimension,
  ==_iff (length v.values) s.dimension,
)

stored-IsConsistent :
    (s : AsyncStore) (m : MemoryRecord) (v : EmbeddingVector)
    → Fits s v
    → IsConsistent s
    → IsConsistent (stored s m v)
stored-IsConsistent s m v f c = record {
  paired = λ id.
      rw (get-put s.items m.memory_id id m, get-put s.vectors m.memory_id id v)
        (ground (arith, c.paired id));
  keyed = λ id x there.
      ground (arith, c.keyed id x, get-put s.items m.memory_id id m, ==_iff m.memory_id id);
  fitting = λ id w there. ground (arith, c.fitting id w, get-put s.vectors m.memory_id id v);
}

Step-IsConsistent : {s s' : AsyncStore} → Step s s' → IsConsistent s → IsConsistent s'
unfolding add update close
Step-IsConsistent {s} {s'} (adds scope m saved v h) c =
    let fits : check_vector s v ≡ ok tt = ground arith in
    let same : s' ≡ stored s m v = ground arith in
    rw same (stored-IsConsistent s m v (Fits-check_vector s v fits) c)
Step-IsConsistent {s} {s'} (updates scope m saved v now h) c =
    let fits : check_vector s v ≡ ok tt = ground arith in
    let same : s' ≡ stored s (record m { updated_at = now }) v = ground arith in
    rw same (stored-IsConsistent s (record m { updated_at = now }) v (Fits-check_vector s v fits) c)
Step-IsConsistent {s} {s'} (closes e) c =
    rw e (record { paired = c.paired; keyed = c.keyed; fitting = c.fitting })

create-IsConsistent :
    (s : AsyncStore) (model_id : String) (dimension : ℕ) (schema_version : String)
    → create model_id dimension schema_version ≡ ok s
    → IsConsistent s
unfolding create Dict.get
create-IsConsistent s model_id dimension schema_version h =
    let same : s ≡ record {
      model_id = model_id;
      dimension = dimension;
      schema_version = schema_version;
      items = [];
      vectors = [];
      closed = false;
    } =
      ground arith in
    rw same (record {
      paired = λ id. (λ e. refl, λ e. refl);
      keyed = λ id m e. absurd (cc);
      fitting = λ id v e. absurd (cc);
    })

-- In every state that calls reach from a new repository, records and vectors stand under the same ids,
-- each record stands under its own id, and each vector has the model and the dimension of the
-- repository.
pub Reached-IsConsistent : {s : AsyncStore} → Reached s → IsConsistent s
Reached-IsConsistent {s} (created model_id dimension schema_version h) =
    create-IsConsistent s model_id dimension schema_version h
Reached-IsConsistent (called reached step) = Step-IsConsistent step (Reached-IsConsistent reached)
