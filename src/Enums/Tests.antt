-- ===== src/Enums/Tests.antt =====
-- The theorem of the paired sockets at one of them.
use jina.Prelude.{◌≡◌, refl, some}
use jina.Enums.{push_bind, pull_connect, paired}

push_bind_paired : paired push_bind ≡ some pull_connect
unfolding paired
push_bind_paired = refl
