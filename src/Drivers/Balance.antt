-- ===== src/Drivers/Balance.antt =====
-- A router and its dealers: `RouteDriver` of jina/drivers/control.py in the head of a pod, and
-- `Zmqlet.send_message` and `Zmqlet.send_idle` of jina/peapods/zmq.py in the peas behind it, whose
-- incoming sockets are dealers of the head's outgoing one. Messages may arrive in any order.
use jina.Prelude.{
  String, Bool, true, Option, none, some, List, [], ◌∷◌, if◌then◌else◌, Result, ok, err,
}
use jina.Drivers.Route.{
  Router, RouteError, Reply, idle, data_request, control_request, new_router, route, remove_id,
}

-- What a `Zmqlet` sends, by the socket that it sends it on.
pub data Outbound : Type 0 where
  on_out_sock on_ctrl_sock idle_on_in_sock : Outbound

-- `Zmqlet.send_idle`, if the incoming socket is a dealer
unfoldable pub send_idle : Bool → List Outbound
send_idle is_dealer = if is_dealer then idle_on_in_sock ∷ [] else []

-- `Zmqlet.send_message`: the message, and that the dealer is idle if the message went out
unfoldable pub send_message : Bool → Bool → List Outbound
unfolding send_idle
send_message is_dealer is_data_request =
    if is_data_request then on_out_sock ∷ send_idle is_dealer else on_ctrl_sock ∷ []

-- The head and its peas: the dealers that have started, those whose idle message the router has yet
-- to read, and those that hold a request.
pub record Balance : Type 0 where
  pub router : Router
  pub started : List String
  pub notices : List String
  pub jobs : List String

abbrev pub new_balance : Bool → Balance
new_balance raise_no_dealer = record {
  router = new_router raise_no_dealer;
  started = [];
  notices = [];
  jobs = [];
}

-- What the messages of a dealer leave on their way to the router
unfoldable pub post : String → List Outbound → Balance → Balance
post d [] s = s
post d (idle_on_in_sock ∷ sent) s = post d sent (record s { notices = d ∷ s.notices })
post d (_ ∷ sent) s = post d sent s

-- `Zmqlet.__init__` of a dealer
unfoldable pub start_dealer : String → Balance → Balance
unfolding post send_idle
start_dealer d s = post d (send_idle true) (record s { started = d ∷ s.started })

-- The dealer that a message is marked for gets it.
unfoldable pub hand_to : Option String → List String → List String
hand_to none jobs = jobs
hand_to (some d) jobs = d ∷ jobs

unfoldable pub hand_over : Result RouteError Reply → List String → List String
unfolding hand_to
hand_over (err e) jobs = jobs
hand_over (ok reply) jobs = hand_to reply.receiver_id jobs

-- The router reads a data request of its incoming socket.
unfoldable pub take_request : (List String → String) → Balance → Balance
unfolding route hand_over
take_request pop s =
    let (router, reply) = route pop s.router data_request in
    record s { router = router; jobs = hand_over reply s.jobs }

-- A dealer has handled its request and sends the message on. It is a dealer that has memory: one that
-- drops its message does not come here.
unfoldable pub answer : String → Balance → Balance
unfolding post send_message remove_id
answer d s = post d (send_message true true) (record s { jobs = remove_id d s.jobs })

-- The router reads that a dealer is idle.
unfoldable pub deliver : (List String → String) → String → Balance → Balance
unfolding route remove_id
deliver pop d s = record s {
  router = (route pop s.router (control_request idle d)).0;
  notices = remove_id d s.notices;
}
