-- ===== src/Enums.antt =====
-- The enums of jina/enums.py that the other parts compute with, by the properties that they carry.
pub mod Pairing
mod Tests
use jina.Prelude.{ℕ, ◌%◌, Bool, ◌&&◌, ◌||◌, Option, leb, ◌==◌}

pub data SchedulerType : Type 0 where
  load_balance round_robin : SchedulerType

pub data PollingType : Type 0 where
  any all all_async : PollingType

pub data FlowOptimizeLevel : Type 0 where
  none ignore_gateway full : FlowOptimizeLevel

pub data SocketType : Type 0 where
  pull_bind pull_connect push_bind push_connect sub_bind sub_connect : SocketType
  pub_bind pub_connect pair_bind pair_connect router_bind dealer_connect : SocketType

pub data FlowBuildLevel : Type 0 where
  empty graph : FlowBuildLevel

pub data PeaRoleType : Type 0 where
  singleton head tail parallel : PeaRoleType

pub data PodRoleType : Type 0 where
  pod join inspect gateway inspect_aux_pass join_inspect : PodRoleType

pub data SkipOnErrorType : Type 0 where
  none executor handle : SkipOnErrorType

pub data FlowInspectType : Type 0 where
  hang remove collect : FlowInspectType

pub data RemoteAccessType : Type 0 where
  ssh jinad : RemoteAccessType

-- The integers of the `IntEnum`s whose code compares them.
abbrev pub polling_value : PollingType → ℕ
polling_value PollingType.any = 1
polling_value PollingType.all = 2
polling_value PollingType.all_async = 3

abbrev pub optimize_value : FlowOptimizeLevel → ℕ
optimize_value FlowOptimizeLevel.none = 0
optimize_value FlowOptimizeLevel.ignore_gateway = 1
optimize_value FlowOptimizeLevel.full = 2

abbrev pub socket_value : SocketType → ℕ
socket_value pull_bind = 0
socket_value pull_connect = 1
socket_value push_bind = 2
socket_value push_connect = 3
socket_value sub_bind = 4
socket_value sub_connect = 5
socket_value pub_bind = 6
socket_value pub_connect = 7
socket_value pair_bind = 8
socket_value pair_connect = 9
socket_value router_bind = 10
socket_value dealer_connect = 11

abbrev pub build_value : FlowBuildLevel → ℕ
build_value empty = 0
build_value graph = 1

abbrev pub role_value : PodRoleType → ℕ
role_value pod = 0
role_value join = 1
role_value PodRoleType.inspect = 2
role_value PodRoleType.gateway = 3
role_value inspect_aux_pass = 4
role_value join_inspect = 5

abbrev pub skip_value : SkipOnErrorType → ℕ
skip_value SkipOnErrorType.none = 0
skip_value executor = 1
skip_value handle = 2

abbrev pub inspect_value : FlowInspectType → ℕ
inspect_value hang = 0
inspect_value remove = 1
inspect_value collect = 2

-- `PollingType.is_push`
unfoldable pub is_push : PollingType → Bool
is_push p = polling_value p == 1

-- `PollingType.is_block`
unfoldable pub is_block : PollingType → Bool
is_block p = polling_value p == 2

-- `SocketType.is_bind`
unfoldable pub is_bind : SocketType → Bool
is_bind s = socket_value s % 2 == 0

-- `SocketType.is_receive`
unfoldable pub is_receive : SocketType → Bool
is_receive s = let v = socket_value s in v == 0 || v == 1 || v == 4 || v == 5

-- `SocketType.is_pubsub`
unfoldable pub is_pubsub : SocketType → Bool
is_pubsub s = leb 4 (socket_value s) && leb (socket_value s) 7

-- `SocketType.paired`; `none` is the `KeyError` of the sockets that the table lacks.
unfoldable pub paired : SocketType → Option SocketType
paired pull_bind = Option.some push_connect
paired pull_connect = Option.some push_bind
paired sub_bind = Option.some pub_connect
paired sub_connect = Option.some pub_bind
paired pair_bind = Option.some pair_connect
paired push_connect = Option.some pull_bind
paired push_bind = Option.some pull_connect
paired pub_connect = Option.some sub_bind
paired pub_bind = Option.some sub_connect
paired pair_connect = Option.some pair_bind
paired router_bind = Option.none
paired dealer_connect = Option.none

-- `PodRoleType.is_inspect`
unfoldable pub is_inspect : PodRoleType → Bool
is_inspect r = role_value r == 2 || role_value r == 4

-- `FlowInspectType.is_keep`
unfoldable pub is_keep : FlowInspectType → Bool
is_keep t = inspect_value t == 0 || inspect_value t == 2
