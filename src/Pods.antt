-- ===== src/Pods.antt =====
-- jina/peapods/pod.py: the arguments of the peas of a pod, and how a pod derives them from its own.
pub mod Link
pub mod Wiring
pub mod Samples
mod Tests
use jina.Prelude.{
  ℕ, zero, suc, ◌+◌, String, Bool, true, false, ◌&&◌, ◌||◌, not, Option, none, some, List, [], ◌∷◌,
  ltb, if◌then◌else◌, str_eq, Result, ok, err, length,
}
use jina.Enums.{
  SocketType, pull_bind, pull_connect, push_bind, push_connect, sub_connect, pub_bind, router_bind,
  dealer_connect, SchedulerType, load_balance, round_robin, PollingType, is_push, PeaRoleType, head,
  tail,
}

-- The fields of the parsed arguments that the wiring reads or writes.
pub record PeaArgs : Type 0 where
  pub name : Option String
  pub host : String
  pub host_in : String
  pub host_out : String
  pub port_in : ℕ
  pub port_out : ℕ
  pub port_ctrl : ℕ
  pub socket_in : SocketType
  pub socket_out : SocketType
  pub uses : Option String
  pub uses_before : Option String
  pub uses_after : Option String
  pub parallel : ℕ
  pub polling : PollingType
  pub scheduling : SchedulerType
  pub num_part : ℕ
  pub role : PeaRoleType
  pub identity : String
  pub expose_public : Bool

-- The answers of `random_port` and `get_random_identity`, call by call.
pub record Random : Type 0 where
  pub port : ℕ → ℕ
  pub identity : ℕ → String

-- What the machine answers: the platform, its addresses, and which `uses` are local files.
pub record Machine : Type 0 where
  pub is_linux : Bool
  pub public_ip : String
  pub internal_ip : String
  pub is_valid_local_config_source : String → Bool

abbrev pub default_host : String
default_host = "0.0.0.0"

-- Python's truth of an optional text.
abbrev pub is_given : Option String → Bool
is_given none = false
is_given (some s) = not (str_eq s "")

-- `a or b`
abbrev pub or_text : Option String → String → String
or_text a b = elim a [ none ↦ b | some s ↦ if str_eq s "" then b else s ]

is_in_docker : Machine → Option String → Bool
is_in_docker m none = false
is_in_docker m (some uses) = not (m.is_valid_local_config_source uses)

-- `_fill_in_host`
unfoldable pub fill_in_host : Machine → PeaArgs → PeaArgs → String
unfolding is_in_docker
fill_in_host m bind connect =
    let bind_local = str_eq bind.host default_host in
    let conn_local = str_eq connect.host default_host in
    let conn_docker = is_in_docker m connect.uses in
    let same_remote = not bind_local && not conn_local && str_eq bind.host connect.host in
    let local_host = if m.is_linux then default_host else "host.docker.internal" in
    if bind_local && conn_local && conn_docker
    then local_host
    else if bind_local && conn_local && not conn_docker
    then default_host
    else if same_remote
    then (if conn_docker then local_host else default_host)
    else if bind_local && not conn_local
    then (if bind.expose_public then m.public_ip else m.internal_ip)
    else bind.host

-- `_set_after_to_pass`
unfoldable pub set_after_to_pass : PeaArgs → PeaArgs
unfolding is_push
set_after_to_pass a = if is_push a.polling then record a { uses_after = some "_pass" } else a

-- The `socket_out` of a head, for its own router or for the pod in front.
unfoldable pub head_socket : Bool → SchedulerType → SocketType
head_socket true round_robin = push_bind
head_socket true load_balance = router_bind
head_socket false scheduling = pub_bind

-- `_copy_to_head_args`: the head's arguments. (`num_part` of the given ones becomes 1.)
unfoldable pub copy_to_head_args : Random → PeaArgs → Bool → Bool → PeaArgs
unfolding head_socket
copy_to_head_args r a push as_router = record a {
  port_ctrl = r.port 0;
  port_out = r.port 1;
  uses = if as_router then some (or_text a.uses_before "_pass") else none;
  socket_out = head_socket push a.scheduling;
  name = if as_router then some (or_text a.name "") else a.name;
  role = if as_router then head else a.role;
}

-- `_copy_to_tail_args`
unfoldable pub copy_to_tail_args : Random → PeaArgs → Bool → PeaArgs
unfolding is_push
copy_to_tail_args r a as_router = record a {
  port_in = r.port 2;
  port_ctrl = r.port 3;
  socket_in = pull_bind;
  uses = if as_router then some (or_text a.uses_after "_pass") else none;
  name = if as_router then some (or_text a.name "") else a.name;
  role = if as_router then tail else a.role;
  num_part = if as_router then (if is_push a.polling then 1 else a.parallel) else a.num_part;
}

-- The `socket_in` of a pea behind a head.
unfoldable pub pea_socket : PeaArgs → SocketType
unfolding is_push
pea_socket a =
    if is_push a.polling
    then elim a.scheduling [ round_robin ↦ pull_connect | load_balance ↦ dealer_connect ]
    else sub_connect

take_port_in : Option PeaArgs → PeaArgs → PeaArgs
take_port_in none a = a
take_port_in (some h) a = record a { port_in = h.port_out }

take_port_out : Option PeaArgs → PeaArgs → PeaArgs
take_port_out none a = a
take_port_out (some t) a = record a { port_out = t.port_in }

take_host_in : Machine → Option PeaArgs → PeaArgs → PeaArgs
take_host_in m none a = a
take_host_in m (some h) a = record a { host_in = fill_in_host m h a }

take_host_out : Machine → Option PeaArgs → PeaArgs → PeaArgs
take_host_out m none a = a
take_host_out m (some t) a = record a { host_out = fill_in_host m t a }

-- One round of the loop of `_set_peas_args`, with the pea's number.
unfoldable pub set_pea_args :
    Machine → Random → PeaArgs → Option PeaArgs → Option PeaArgs → ℕ → PeaArgs
unfolding take_port_in take_port_out take_host_in take_host_out pea_socket
set_pea_args m r a head_args tail_args i = take_host_out m tail_args (
    take_host_in m head_args (record (take_port_out tail_args (take_port_in head_args a)) {
      port_ctrl = r.port (4 + i);
      identity = r.identity i;
      socket_out = push_connect;
      socket_in = pea_socket a;
    }))

set_peas_from : Machine → Random → PeaArgs → Option PeaArgs → Option PeaArgs → ℕ → ℕ → List PeaArgs
unfolding set_pea_args
set_peas_from m r a head_args tail_args zero i = []
set_peas_from m r a head_args tail_args (suc n) i =
    set_pea_args m r a head_args tail_args i ∷ set_peas_from m r a head_args tail_args n (suc i)

-- `_set_peas_args`
unfoldable pub set_peas_args :
    Machine → Random → PeaArgs → Option PeaArgs → Option PeaArgs → List PeaArgs
unfolding set_peas_from
set_peas_args m r a head_args tail_args = set_peas_from m r a head_args tail_args a.parallel 0

-- `BasePod`: its own arguments, and those of its peas.
pub record BasePod : Type 0 where
  pub args : PeaArgs
  pub head_pea : Option PeaArgs
  pub tail_pea : Option PeaArgs
  pub peas : List PeaArgs
  pub is_head_router : Bool
  pub is_tail_router : Bool
  pub deducted_head : Option PeaArgs
  pub deducted_tail : Option PeaArgs

parse_parallel : Machine → Random → PeaArgs → BasePod
unfolding set_after_to_pass copy_to_head_args copy_to_tail_args set_peas_args is_push
parse_parallel m r args =
    let a = set_after_to_pass args in
    let head_args = copy_to_head_args r a (is_push a.polling) true in
    let a' : PeaArgs = record a { num_part = 1 } in
    let tail_args = copy_to_tail_args r a' true in
    record {
      args = a';
      head_pea = some head_args;
      tail_pea = some tail_args;
      peas = set_peas_args m r a' (some head_args) (some tail_args);
      is_head_router = true;
      is_tail_router = true;
      deducted_head = none;
      deducted_tail = none;
    }

parse_around : Machine → Random → PeaArgs → BasePod
unfolding copy_to_head_args copy_to_tail_args set_peas_args is_push
parse_around m r args =
    let a : PeaArgs = record args { scheduling = round_robin } in
    let before = is_given a.uses_before in
    let after = is_given a.uses_after in
    let head_args =
      if before then some (copy_to_head_args r a (is_push a.polling) true) else none in
    let a' : PeaArgs = if before then record a { num_part = 1 } else a in
    let tail_args = if after then some (copy_to_tail_args r a' true) else none in
    record {
      args = a';
      head_pea = head_args;
      tail_pea = tail_args;
      peas = set_peas_args m r a' head_args tail_args;
      is_head_router = before;
      is_tail_router = after;
      deducted_head = none;
      deducted_tail = none;
    }

parse_single : PeaArgs → BasePod
unfolding set_after_to_pass
parse_single args =
    let a = set_after_to_pass args in
    record {
      args = a;
      head_pea = none;
      tail_pea = none;
      peas = a ∷ [];
      is_head_router = false;
      is_tail_router = false;
      deducted_head = none;
      deducted_tail = none;
    }

-- `_parse_args`
unfoldable pub parse_args : Machine → Random → PeaArgs → BasePod
unfolding parse_parallel parse_around parse_single
parse_args m r a =
    if ltb 1 a.parallel
    then parse_parallel m r a
    else if is_given a.uses_before || is_given a.uses_after
    then parse_around m r a
    else parse_single a
