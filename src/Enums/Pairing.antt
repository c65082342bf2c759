-- ===== src/Enums/Pairing.antt =====
-- How the two ends of a link fit together (jina/enums.py, `SocketType`).
use jina.Prelude.{◌≡◌, ◌⊎◌, not, some, arith}
use jina.Enums.{SocketType, paired, is_bind, is_receive, is_pubsub, pair_bind, pair_connect}

-- A socket that has a pair is the pair of its pair; exactly one of the two binds; both or neither
-- are publish-subscribe; and exactly one of the two receives, unless they are of the PAIR kind.
paired_lem :
    (s t : SocketType)
    → paired s ≡ some t
    → (paired t ≡ some s)
      × (is_bind t ≡ not (is_bind s))
      × (is_pubsub t ≡ is_pubsub s)
      × ((is_receive t ≡ not (is_receive s)) ⊎ (s ≡ pair_bind) ⊎ (s ≡ pair_connect))
unfolding paired is_bind is_pubsub is_receive
paired_lem s t h = ground arith
