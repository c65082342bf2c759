-- ===== src/Drivers/Rank.antt =====
-- jina/drivers/rank.py: the three drivers that rank documents by the scores of an executor, and
-- `pb_obj2dict` of jina/drivers/helper.py.
use jina.Prelude.{
  ℕ, ◌+◌, String, str_eq, Option, none, some, List, [], ◌∷◌, ◌++◌, if◌then◌else◌, Result, ok, err,
  ◌>>=◌, ◌>>◌, raise_if, not, all, ◌&&◌, Bool,
}
use jina.Prelude.Dict.{Dict}
use jina.Prelude.Int.{ℤ, eq_ℤ}
use jina.Prelude.Text.{Text, text_eq}
use jina.Types.Uid.{ByteOrder, UidError, id2hash, hash2id, is_int64}

-- A document without its chunks and matches: `S` are the scores, and `C` is all else that it holds.
pub record Scored (S C : Type 0) : Type 0 where
  pub id : Text
  pub parent_id : Text
  pub granularity : ℕ
  pub adjacency : ℕ
  pub score : S
  pub ref_id : Text
  pub op_name : String
  pub content : C

-- A row of `match_idx`
pub record Row (S : Type 0) : Type 0 where
  pub match_parent_hash : ℤ
  pub match_hash : ℤ
  pub doc_chunk_hash : ℤ
  pub score : S

-- The exceptions of the identifiers, `KeyError`, those of the executor, and numpy's OverflowError.
pub data RankError : Type 0 where
  bad_uid : UidError → RankError
  key_error : Text → RankError
  executor_error overflow_error : RankError

abbrev pub in_uid : {A : Type 0} → Result UidError A → Result RankError A
in_uid (ok a) = ok a
in_uid (err e) = err (bad_uid e)

-- `metas[key] = value`
unfoldable pub set_item : {V : Type 0} → ℤ → V → List (ℤ × V) → List (ℤ × V)
set_item key value [] = (key, value) ∷ []
set_item key value ((k, old) ∷ items) =
    if eq_ℤ k key then (k, value) ∷ items else (k, old) ∷ set_item key value items

-- `[::-1]`
unfoldable pub backwards : {A : Type 0} → List A → List A
backwards [] = []
backwards (x ∷ xs) = backwards xs ++ (x ∷ [])

-- `exec.__class__.__name__`, where `exec` is Python's builtin function.
abbrev pub exec_name : String
exec_name = "builtin_function_or_method"

-- What a driver has around it: the order of the bytes of the machine, `getattr` of a document where
-- it has the attribute, the array of a blob, the executor's `required_keys`, and the document that
-- `matches.add()` makes.
pub record Ranking (S C V : Type 0) : Type 0 where
  pub byteorder : ByteOrder
  pub get_attribute : Scored S C → String → Option V
  pub blob_value : V → V
  pub required_keys : List String
  pub blank : Scored S C

module _ {S C V : Type 0} (r : Ranking S C V) where
  abbrev pub attribute_value : String → V → V
  attribute_value k v = if str_eq k "blob" then r.blob_value v else v

  abbrev pub put_attribute : String → Option V → Dict V → Dict V
  put_attribute k none items = items
  put_attribute k (some v) items = (k, attribute_value k v) ∷ items

  unfoldable pub pb_obj2dict : List String → Scored S C → Dict V
  pb_obj2dict [] obj = []
  pb_obj2dict (k ∷ keys) obj = put_attribute k (r.get_attribute obj k) (pb_obj2dict keys obj)

  abbrev pub meta : Scored S C → Dict V
  unfolding pb_obj2dict
  meta obj = pb_obj2dict r.required_keys obj

  abbrev pub hash_of : Text → Result RankError ℤ
  hash_of t = in_uid (id2hash r.byteorder t)

  abbrev pub id_of : ℤ → Result RankError Text
  id_of h = in_uid (hash2id r.byteorder h)

-- What is collected of the matches: `match_idx`, `query_chunk_meta` and `match_chunk_meta`.
pub record Collected (S V : Type 0) : Type 0 where
  pub match_idx : List (Row S)
  pub query_chunk_meta : List (ℤ × Dict V)
  pub match_chunk_meta : List (ℤ × Dict V)

abbrev pub if_any :
    {A B : Type 0} → List A → Result RankError B → Result RankError B → Result RankError B
if_any [] none_given given = none_given
if_any (x ∷ xs) none_given given = given

-- `np.array(match_idx, dtype=...)`: the three hashes of each row are `np.int64`.
abbrev pub is_int64_match : {S : Type 0} → Row S → Bool
is_int64_match row =
    is_int64 row.match_parent_hash && (is_int64 row.match_hash && is_int64 row.doc_chunk_hash)

abbrev pub as_int64 : {S : Type 0} → List (Row S) → Result RankError (Unit {0})
as_int64 rows = raise_if (not (all is_int64_match rows)) overflow_error

abbrev pub nothing_collected : {S V : Type 0} → Collected S V
nothing_collected = record { match_idx = []; query_chunk_meta = []; match_chunk_meta = [] }

module _ {S C : Type 0} where
  -- `r.granularity` and `r.adjacency` of a match that is added to a document
  abbrev pub level_up : Scored S C → Scored S C → Scored S C
  level_up context m = record m {
    granularity = context.granularity;
    adjacency = context.adjacency + 1;
  }

  -- `old_matches[id]`: of matches with the same identifier, the dict has the last one.
  unfoldable pub old_match : Text → List (Scored S C) → Option (Scored S C)
  old_match t [] = none
  old_match t (m ∷ ms) = elim (old_match t ms) [
    | some later ↦ some later
    | none ↦ if text_eq m.id t then some m else none
  ]

  abbrev pub found : Text → Option (Scored S C) → Result RankError (Scored S C)
  found t none = err (key_error t)
  found t (some m) = ok m

module _ {S C V : Type 0} (r : Ranking S C V) where
  unfoldable pub collect_match :
      Scored S C → Scored S C → Collected S V → Result RankError (Collected S V)
  unfolding set_item
  collect_match chunk match acc = do
    p ← hash_of r match.parent_id
    m ← hash_of r match.id
    c ← hash_of r chunk.id
    ok (record {
      match_idx =
          acc.match_idx
          ++ (record {
            match_parent_hash = p;
            match_hash = m;
            doc_chunk_hash = c;
            score = match.score;
          }
              ∷ []);
      query_chunk_meta = set_item c (meta r chunk) acc.query_chunk_meta;
      match_chunk_meta = set_item m (meta r match) acc.match_chunk_meta;
    })

  unfoldable pub collect_matches :
      Scored S C → List (Scored S C) → Collected S V → Result RankError (Collected S V)
  unfolding collect_match
  collect_matches chunk [] acc = ok acc
  collect_matches chunk (m ∷ ms) acc =
      collect_match chunk m acc >>= λ met. collect_matches chunk ms met

  unfoldable pub collect_chunks :
      List (Scored S C × List (Scored S C)) → Collected S V → Result RankError (Collected S V)
  unfolding collect_matches
  collect_chunks [] acc = ok acc
  collect_chunks ((chunk, ms) ∷ chunks) acc =
      collect_matches chunk ms acc >>= λ met. collect_chunks chunks met

  -- `Chunk2DocRanker.score`: what an executor is asked, and the documents' hashes with their scores
  abbrev pub Exec : Type 0
  Exec = List (Row S) → List (ℤ × Dict V) → List (ℤ × Dict V) → Result RankError (List (ℤ × S))

  -- The matches that are made of the scores; `finish` sets what the two drivers set differently.
  unfoldable pub add_matches :
      (Scored S C → Scored S C) → Text → List (ℤ × S) → Result RankError (List (Scored S C))
  add_matches finish ref_id [] = ok []
  add_matches finish ref_id ((h, s) ∷ scores) = do
    t ← id_of r h
    rest ← add_matches finish ref_id scores
    ok (finish (record r.blank { id = t; ref_id = ref_id; score = s; op_name = exec_name }) ∷ rest)

  -- `Chunk2DocRankDriver._apply_all`: the matches of `context_doc`, whose chunks are `docs`
  unfoldable pub chunk2doc :
      Exec
      → Scored S C
      → List (Scored S C)
      → List (Scored S C × List (Scored S C))
      → Result RankError (List (Scored S C))
  unfolding collect_chunks add_matches
  chunk2doc exec_fn context matches docs = collect_chunks docs nothing_collected >>= λ met.
      if_any met.match_idx (ok matches) (
        as_int64 met.match_idx
        >> exec_fn met.match_idx met.query_chunk_meta met.match_chunk_meta
        >>= λ scores.
            add_matches (level_up context) context.id scores >>= λ added. ok (matches ++ added))

  -- `CollectMatches2DocRankDriver._apply_all`: the matches of `context_doc`, which are `docs`
  unfoldable pub collect_matches2doc :
      Exec → Option (Scored S C) → List (Scored S C) → Result RankError (List (Scored S C))
  unfolding collect_matches add_matches
  collect_matches2doc exec_fn none docs = ok docs
  collect_matches2doc exec_fn (some context) docs =
      collect_matches context docs nothing_collected >>= λ met. if_any met.match_idx (ok docs) (
        as_int64 met.match_idx
        >> exec_fn met.match_idx met.query_chunk_meta met.match_chunk_meta
        >>= add_matches (λ m. m) context.id)

  -- The loop of `Matches2DocRankDriver._sort_matches_in_place`
  unfoldable pub rescore : List (Scored S C) → List (ℤ × S) → Result RankError (List (Scored S C))
  unfolding old_match
  rescore old [] = ok []
  rescore old ((h, s) ∷ scores) = do
    t ← id_of r h
    m ← found t (old_match t old)
    rest ← rescore old scores
    ok (record m { score = s; op_name = exec_name } ∷ rest)

  -- `Matches2DocRankDriver._sort_matches_in_place` with `_sort`; `np_sort` is `np.sort` by the score.
  unfoldable pub sort_matches :
      (List (ℤ × S) → List (ℤ × S))
      → List (Scored S C)
      → List (ℤ × S)
      → Result RankError (List (Scored S C))
  unfolding rescore backwards
  sort_matches np_sort matches scores = rescore matches (backwards (np_sort scores))

  -- A dict over the matches by their hashes
  unfoldable pub by_hash :
      {A : Type 0}
      → (Scored S C → A)
      → List (Scored S C)
      → List (ℤ × A)
      → Result RankError (List (ℤ × A))
  unfolding set_item
  by_hash value [] items = ok items
  by_hash value (m ∷ ms) items =
      hash_of r m.id >>= λ h. by_hash value ms (set_item h (value m) items)

  -- `Matches2DocRankDriver._apply_all`: the matches of `context_doc`, which are `docs`
  unfoldable pub matches2doc :
      (Dict V → List (ℤ × S) → List (ℤ × Dict V) → Result RankError (List (ℤ × S)))
      → (List (ℤ × S) → List (ℤ × S))
      → Scored S C
      → List (Scored S C)
      → Result RankError (List (Scored S C))
  unfolding by_hash sort_matches
  matches2doc exec_fn np_sort context docs = by_hash (λ m. m.score) docs [] >>= λ old_scores.
      by_hash (meta r) docs [] >>= λ match_meta.
      if_any old_scores (ok docs)
        (exec_fn (meta r context) old_scores match_meta >>= sort_matches np_sort docs)
