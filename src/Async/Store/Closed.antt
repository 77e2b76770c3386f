-- ===== src/Async/Store/Closed.antt =====
-- The repository after `close`.
use evoeventmem.Prelude.{ℕ, ◌≡◌, String, List, refl}
use evoeventmem.Result.{err, runtime_error, Error}
use evoeventmem.Float.Signed.{Signed}
use evoeventmem.Domain.Models.{MemoryRecord}
use evoeventmem.Rules.Scope.{RequestScope}
use evoeventmem.Async.Types.{EmbeddingVector, ListQuery, SearchVector}
use evoeventmem.Async.Store.{
  AsyncStore, add, get, get_with_vector, update, list, find_by_normalized_content, search_vector,
  ping, close,
}

abbrev pub closed_error : Error
closed_error = runtime_error "repository is closed"

-- After `close` every other call of the repository raises the same error, whatever its arguments are,
-- and closing it again changes nothing.
pub close_raises :
    (cosine : List ℕ → List ℕ → Signed) (s : AsyncStore) (scope : RequestScope) (m : MemoryRecord)
    (vector : EmbeddingVector) (id now : ℕ) (query : ListQuery) (content : String)
    (search : SearchVector)
    → (add (close s) scope m vector ≡ err closed_error)
      × (get (close s) scope id ≡ err closed_error)
      × (get_with_vector (close s) scope id ≡ err closed_error)
      × (update (close s) scope m vector now ≡ err closed_error)
      × (list (close s) scope query ≡ err closed_error)
      × (find_by_normalized_content (close s) scope content ≡ err closed_error)
      × (search_vector cosine (close s) search ≡ err closed_error)
      × (ping (close s) ≡ err closed_error)
      × (close (close s) ≡ close s)
unfolding add get get_with_vector update list find_by_normalized_content search_vector ping close
close_raises cosine s scope m vector id now query content search =
    (refl, refl, refl, refl, refl, refl, refl, refl, refl)
