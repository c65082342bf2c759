-- ===== src/Peas/Messages.antt =====
-- jina/types/message/__init__.py: the envelope of a message, as far as a pea reads and writes it.
use jina.Prelude.{ℕ, String, ◌<>◌, Bool, true, false, List, [], ◌∷◌, ◌++◌, leb, if◌then◌else◌}
use jina.Prelude.Dict
use jina.Prelude.Dict.{Dict}

-- `StatusProto`, as `add_exception` sets it
pub data RouteStatus : Type 0 where
  unset error chained : RouteStatus

-- `RouteProto`; the time is the seconds and nanoseconds in one number.
pub record Route : Type 0 where
  pub pod : String
  pub pod_id : String
  pub start_time : ℕ
  pub status : RouteStatus

-- `Message`; `failed` says that the status of its envelope is ERROR.
pub record Message (R : Type 0) : Type 0 where
  pub request_id : String
  pub is_data_request : Bool
  pub failed : Bool
  pub request : R
  pub routes : List Route

-- `{(r.pod + r.pod_id): r for m in msgs for r in m.envelope.routes}`
unfoldable pub index_routes : List Route → Dict Route → Dict Route
unfolding Dict.insert
index_routes [] m = m
index_routes (r ∷ rs) m = index_routes rs (Dict.insert (r.pod <> r.pod_id) r m)

-- `sorted` by the time at which a route starts; equal routes stay in order.
unfoldable pub insert_route : Route → List Route → List Route
insert_route r [] = r ∷ []
insert_route r (s ∷ rs) =
    if leb r.start_time s.start_time then r ∷ s ∷ rs else s ∷ insert_route r rs

unfoldable pub sort_routes : List Route → List Route
unfolding insert_route
sort_routes [] = []
sort_routes (r ∷ rs) = insert_route r (sort_routes rs)

unfoldable pub set_last_status : RouteStatus → List Route → List Route
set_last_status status [] = []
set_last_status status (r ∷ []) = record r { status = status } ∷ []
set_last_status status (r ∷ s ∷ rs) = r ∷ set_last_status status (s ∷ rs)

module _ {R : Type 0} where
  -- `add_route`
  unfoldable pub add_route : String → String → ℕ → Message R → Message R
  add_route name identity now msg = record msg {
    routes =
        msg.routes
        ++ (record { pod = name; pod_id = identity; start_time = now; status = unset } ∷ []);
  }

  unfoldable pub all_routes : List (Message R) → List Route
  all_routes [] = []
  all_routes (m ∷ ms) = m.routes ++ all_routes ms

  -- `merge_envelope_from`
  unfoldable pub merge_envelope_from : List (Message R) → Message R → Message R
  unfolding index_routes all_routes sort_routes
  merge_envelope_from msgs msg = record msg {
    routes = sort_routes (Dict.values (index_routes (all_routes msgs) []));
  }

  -- `add_exception`, with an exception or without
  unfoldable pub add_exception : Bool → Message R → Message R
  unfolding set_last_status
  add_exception true msg = record msg { failed = true; routes = set_last_status error msg.routes }
  add_exception false msg = record msg { routes = set_last_status chained msg.routes }
