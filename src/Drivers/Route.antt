-- ===== src/Drivers/Route.antt =====
-- jina/drivers/control.py: `ControlReqDriver` and `RouteDriver`, the load balancer in front of the
-- peas of a pod, and `pause_pollin` and `resume_pollin` of jina/peapods/zmq.py.
use jina.Prelude.{
  String, Bool, true, false, Option, none, some, List, [], ◌∷◌, str_eq, if◌then◌else◌, Result, ok,
  err,
}
use jina.Prelude.Dict.{contains}

-- `ControlRequestProto.Command`
pub data Command : Type 0 where
  terminate status idle other : Command

-- What the router is given: a data request, or a control request with the dealer that sent it.
pub data Request : Type 0 where
  data_request : Request
  control_request : Command → String → Request

-- `UnknownControlCommand`, `RequestLoopEnd`, `NoExplicitMessage` and the `RuntimeError`
pub data RouteError : Type 0 where
  unknown_control_command request_loop_end no_explicit_message no_dealer : RouteError

-- `StatusProto.StatusCode`, as far as a control request sets it
pub data Status : Type 0 where
  unset success ready : Status

-- The state of a `RouteDriver` and of the incoming socket of its pea.
pub record Router : Type 0 where
  pub idle_dealer_ids : List String
  pub is_pollin_paused : Bool
  pub raise_no_dealer : Bool
  pub is_polling : Bool

-- What a call leaves in the message: the receiver that it marks and the status code.
pub record Reply : Type 0 where
  pub receiver_id : Option String
  pub status : Status

abbrev pub untouched : Reply
untouched = record { receiver_id = none; status = unset }

-- `RouteDriver.__init__`
abbrev pub new_router : Bool → Router
new_router raise_no_dealer = record {
  idle_dealer_ids = [];
  is_pollin_paused = false;
  raise_no_dealer = raise_no_dealer;
  is_polling = true;
}

-- `set.add`
abbrev pub add_id : String → List String → List String
add_id d ids = if contains ids d then ids else d ∷ ids

-- `set.remove` of an element that `set.pop` has chosen
unfoldable pub remove_id : String → List String → List String
remove_id d [] = []
remove_id d (i ∷ ids) = if str_eq i d then ids else i ∷ remove_id d ids

unfoldable pub pause_pollin : Router → Router
pause_pollin s = record s { is_polling = false }

unfoldable pub resume_pollin : Router → Router
resume_pollin s = record s { is_polling = true }

-- `ControlReqDriver.__call__`
unfoldable pub control : Command → Result RouteError Reply
control terminate = err request_loop_end
control status = ok (record untouched { status = ready })
control _ = err unknown_control_command

-- What a dispatch does with the dealers that stay idle: without any, the polling is paused.
unfoldable pub set_idle : Router → List String → Router
unfolding pause_pollin
set_idle s [] = record (pause_pollin (record s { idle_dealer_ids = [] })) {
  is_pollin_paused = true;
}
set_idle s (i ∷ ids) = record s { idle_dealer_ids = i ∷ ids }

-- The branch of a data request where `set.pop` gives `dealer_id`
unfoldable pub dispatch : String → Router → Router
unfolding remove_id set_idle
dispatch dealer_id s = set_idle s (remove_id dealer_id s.idle_dealer_ids)

-- The branch of a dealer that is idle
unfoldable pub mark_idle : String → Router → Router
unfolding resume_pollin
mark_idle dealer_id s =
    let marked : Router = record s { idle_dealer_ids = add_id dealer_id s.idle_dealer_ids } in
    if s.is_pollin_paused
    then record (resume_pollin marked) { is_pollin_paused = false }
    else marked

-- The branches of a data request: whether a dealer is idle
unfoldable pub route_data :
    (List String → String) → Router → List String → Router × Result RouteError Reply
unfolding dispatch
route_data pop s [] = (s, if s.raise_no_dealer then err no_dealer else ok untouched)
route_data pop s (i ∷ ids) =
    let dealer_id = pop (i ∷ ids) in
    (dispatch dealer_id s, ok (record untouched { receiver_id = some dealer_id }))

-- `RouteDriver.__call__`: the state that it leaves, and its reply or exception. `pop` is the choice
-- of `set.pop` among the dealers.
unfoldable pub route : (List String → String) → Router → Request → Router × Result RouteError Reply
unfolding route_data mark_idle control
route pop s data_request = route_data pop s s.idle_dealer_ids
route pop s (control_request idle sender) = (mark_idle sender s, err no_explicit_message)
route pop s (control_request command sender) = (s, control command)
