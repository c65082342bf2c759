-- ===== src/Pods/Samples.antt =====
-- A machine and arguments for the tests of the pods.
use jina.Prelude.{ℕ, ◌+◌, String, true, false, none, some}
use jina.Enums.{pull_bind, push_bind, load_balance, PollingType, singleton}
use jina.Pods.{PeaArgs, Random, Machine, default_host}

abbrev pub machine : Machine
machine = record {
  is_linux = true;
  public_ip = "1.2.3.4";
  internal_ip = "10.0.0.1";
  is_valid_local_config_source = λ s. false;
}

abbrev pub ports : Random
ports = record { port = λ i. 50000 + i; identity = λ i. "id" }

abbrev pub args_of : String → ℕ → PeaArgs
args_of name parallel = record {
  name = some name;
  host = default_host;
  host_in = default_host;
  host_out = default_host;
  port_in = 1;
  port_out = 2;
  port_ctrl = 3;
  socket_in = pull_bind;
  socket_out = push_bind;
  uses = some "_pass";
  uses_before = none;
  uses_after = none;
  parallel = parallel;
  polling = PollingType.any;
  scheduling = load_balance;
  num_part = 1;
  role = singleton;
  identity = "id";
  expose_public = false;
}
