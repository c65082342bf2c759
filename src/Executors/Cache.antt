-- ===== src/Executors/Cache.antt =====
-- `DocIDCache` of jina/executors/indexers/cache.py: the hashes of identifiers, in a set in memory
-- and in a file.
use jina.Prelude.{
  ℕ, suc, Bool, Option, none, some, List, [], ◌∷◌, ◌++◌, if◌then◌else◌, Result, ok, ◌>>=◌, any,
}
use jina.Prelude.Int.{ℤ, eq_ℤ}
use jina.Prelude.Text.{Text}
use jina.Types.Uid.{Bytes, ByteOrder, UidError, id2hash, to_bytes, from_bytes}

-- `query_handler`, the set, by the hashes that were added; the file that the write handler writes.
pub record DocIdCache : Type 0 where
  pub query_handler : List ℤ
  pub written : Bytes
  pub cache_size : ℕ

abbrev pub is_member : ℤ → List ℤ → Bool
is_member h hashes = any (λ k. eq_ℤ k h) hashes

abbrev pub none_if_false : Bool → Option Bool
none_if_false b = if b then some b else none

-- `np.frombuffer(bs, dtype=np.int64)`; None where the last number is cut off
abbrev pub cons_hash : ByteOrder → Bytes → Option (List ℤ) → Option (List ℤ)
cons_hash order bs none = none
cons_hash order bs (some hashes) = some (from_bytes order bs ∷ hashes)

unfoldable pub from_buffer : ByteOrder → Bytes → Option (List ℤ)
from_buffer order (a ∷ b ∷ c ∷ d ∷ e ∷ f ∷ g ∷ h ∷ bs) =
    cons_hash order (a ∷ b ∷ c ∷ d ∷ e ∷ f ∷ g ∷ h ∷ []) (from_buffer order bs)
from_buffer order [] = some []
from_buffer order bs = none

module _ (order : ByteOrder) where
  -- `add`: a number that is not an int64 is an OverflowError.
  unfoldable pub add_id : Text → DocIdCache → Result UidError DocIdCache
  unfolding id2hash to_bytes
  add_id doc_id c = do
    d_id ← id2hash order doc_id
    bs ← to_bytes 8 order d_id
    ok record c {
      query_handler = c.query_handler ++ (d_id ∷ []);
      written = c.written ++ bs;
      cache_size = suc c.cache_size;
    }

  -- `query`: `(d_id in self.query_handler) or None`
  unfoldable pub query_id : Text → DocIdCache → Result UidError (Option Bool)
  unfolding id2hash
  query_id doc_id c =
      id2hash order doc_id >>= λ d_id. ok (none_if_false (is_member d_id c.query_handler))

  -- `get_query_handler`: the set that the file stands for
  unfoldable pub reopen : DocIdCache → Option (List ℤ)
  unfolding from_buffer
  reopen c = from_buffer order c.written

-- `null_query_handler` and `get_create_handler`: no hash, and an empty file
abbrev pub empty_cache : DocIdCache
empty_cache = record { query_handler = []; written = []; cache_size = 0 }
