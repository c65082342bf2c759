-- ===== src/Drivers/RouteLaws.antt =====
-- The dealers that a router knows to be idle.
use jina.Prelude.{
  String, ◌≡◌, ◌≢◌, refl, ap, ◌∙◌, Bool, true, false, not, ◌&&◌, ◌||◌, none, some, List, [], ◌∷◌,
  str_eq, eq_iff, if◌then◌else◌, Result, ok, err, arith, Bool-cases, inl, inr,
}
use jina.Prelude.Dict.{contains}
use jina.Drivers.Route.{
  terminate, status, idle, other, Request, data_request, control_request, RouteError, Router, Reply,
  new_router, add_id, remove_id, pause_pollin, resume_pollin, dispatch, set_idle, route_data,
  mark_idle, route, untouched, no_dealer,
}

-- `set.pop` gives an element.
abbrev pub Picks : (List String → String) → Type 0
Picks pop = (d : String) (ids : List String) → contains (d ∷ ids) (pop (d ∷ ids)) ≡ true

abbrev pub Distinct : List String → Type 0
Distinct [] = Unit
Distinct (d ∷ ids) = (contains ids d ≡ false) × Distinct ids

-- No dealer is listed twice, the socket is polled exactly if the driver says that it is not paused,
-- and it is paused only while no dealer is idle.
pub record IsValid (s : Router) : Type 0 where
  pub distinct : Distinct s.idle_dealer_ids
  pub polling : s.is_polling ≡ not s.is_pollin_paused
  pub paused : s.is_pollin_paused ≡ true → s.idle_dealer_ids ≡ []

contains-remove_id :
    (d k : String) (ids : List String)
    → Distinct ids
    → contains (remove_id d ids) k ≡ (contains ids k && not (str_eq k d))
unfolding remove_id
contains-remove_id d k [] h = refl
contains-remove_id d k (i ∷ ids) (fresh, h) =
    ground (arith, contains-remove_id d k ids h, eq_iff i d, eq_iff k d, eq_iff i k)

remove_id-Distinct : (d : String) (ids : List String) → Distinct ids → Distinct (remove_id d ids)
unfolding remove_id
remove_id-Distinct d [] h = tt
remove_id-Distinct d (i ∷ ids) (fresh, h) = elim (Bool-cases (str_eq i d)) [
  | inl same ↦ rw same h
  | inr differ ↦
      rw differ (ground (arith, contains-remove_id d i ids h), remove_id-Distinct d ids h)
]

add_id-Distinct : (d : String) (ids : List String) → Distinct ids → Distinct (add_id d ids)
add_id-Distinct d ids h = elim (Bool-cases (contains ids d)) [
  | inl known ↦ rw known h
  | inr fresh ↦ rw fresh (fresh, h)
]

not_paused : (s : Router) → IsValid s → s.idle_dealer_ids ≢ [] → s.is_pollin_paused ≡ false
not_paused s v given = elim (Bool-cases s.is_pollin_paused) [
  | inl paused ↦ absurd (given (v.paused paused))
  | inr running ↦ running
]

set_idle-IsValid :
    (s : Router) (ids : List String)
    → IsValid s
    → s.is_pollin_paused ≡ false
    → Distinct ids
    → IsValid (set_idle s ids)
unfolding set_idle pause_pollin
set_idle-IsValid s [] v running h = record { distinct = tt; polling = refl; paused = λ e. refl }
set_idle-IsValid s (i ∷ ids) v running h = record {
  distinct = h;
  polling = v.polling;
  paused = λ e. absurd (ground arith);
}

pub mark_idle-IsValid : (d : String) (s : Router) → IsValid s → IsValid (mark_idle d s)
unfolding mark_idle resume_pollin
mark_idle-IsValid d s v =
    let h = add_id-Distinct d s.idle_dealer_ids v.distinct in
    elim (Bool-cases s.is_pollin_paused) [
      | inl paused ↦
          rw paused record { distinct = h; polling = refl; paused = λ e. absurd (ground arith) }
      | inr running ↦ rw running record {
        distinct = h;
        polling = ground (arith, v.polling);
        paused = λ e. absurd (ground arith);
      }
    ]

-- The requests that a router is given, one after another.
pub data Reach (pop : List String → String) (s : Router) : Router → Type 0 where
  here : Reach pop s s
  next : {t : Router} → Reach pop s t → (q : Request) → Reach pop s ((route pop t q).0)

route_data-IsValid :
    (pop : List String → String) (s : Router) (ids : List String)
    → IsValid s
    → s.idle_dealer_ids ≡ ids
    → IsValid ((route_data pop s ids).0)
unfolding route_data dispatch
route_data-IsValid pop s [] v e = v
route_data-IsValid pop s (i ∷ ids) v e =
    set_idle-IsValid s _ v (not_paused s v (λ no_idle. ground arith))
      (remove_id-Distinct (pop (i ∷ ids)) s.idle_dealer_ids v.distinct)

pub route-IsValid :
    (pop : List String → String) (s : Router) (q : Request)
    → IsValid s
    → IsValid ((route pop s q).0)
unfolding route
route-IsValid pop s data_request v = route_data-IsValid pop s s.idle_dealer_ids v refl
route-IsValid pop s (control_request idle sender) v = mark_idle-IsValid sender s v
route-IsValid pop s (control_request terminate sender) v = v
route-IsValid pop s (control_request status sender) v = v
route-IsValid pop s (control_request other sender) v = v

-- Whatever requests a new router is given: no dealer is listed twice, the incoming socket is polled
-- exactly if the driver does not note it as paused, and it is paused only while no dealer is idle.
pub new_router-Reach-IsValid :
    (pop : List String → String) (raise_no_dealer : Bool) {s : Router}
    → Reach pop (new_router raise_no_dealer) s
    → IsValid s
new_router-Reach-IsValid pop raise_no_dealer here = record {
  distinct = tt;
  polling = refl;
  paused = λ e. refl;
}
new_router-Reach-IsValid pop raise_no_dealer (next {t} r q) =
    route-IsValid pop t q (new_router-Reach-IsValid pop raise_no_dealer r)

pub set_idle-ids : (s : Router) (ids : List String) → (set_idle s ids).idle_dealer_ids ≡ ids
unfolding set_idle
set_idle-ids s [] = refl
set_idle-ids s (i ∷ ids) = refl

contains-add_id :
    (d k : String) (ids : List String) → contains (add_id d ids) k ≡ (contains ids k || str_eq d k)
contains-add_id d k ids = ground (arith, eq_iff d k)

pub mark_idle-ids :
    (s : Router) (sender : String)
    → (mark_idle sender s).idle_dealer_ids ≡ add_id sender s.idle_dealer_ids
unfolding mark_idle resume_pollin
mark_idle-ids s sender = ground arith

mark_idle-contains :
    (s : Router) (sender d : String)
    → contains (mark_idle sender s).idle_dealer_ids d
      ≡ (contains s.idle_dealer_ids d || str_eq sender d)
unfolding mark_idle resume_pollin
mark_idle-contains s sender d =
    rw (mark_idle-ids s sender) (contains-add_id sender d s.idle_dealer_ids)

-- Whether a dealer is idle once a request is handled: a dealer that reports is, and the receiver of
-- a data request, which was idle, is no more; all others are as they were. A data request has no
-- receiver only if no dealer is idle, and is refused exactly if the router is to raise then.
abbrev pub IdleAfter : Router → Request → Router × Result RouteError Reply → String → Type 0
IdleAfter s data_request (t, ok reply) d = elim reply.receiver_id [
  | none ↦ (s.idle_dealer_ids ≡ []) × (s.raise_no_dealer ≡ false) × (t ≡ s)
  | some r ↦
      (contains s.idle_dealer_ids r ≡ true)
      × (contains t.idle_dealer_ids d ≡ (contains s.idle_dealer_ids d && not (str_eq d r)))
]
IdleAfter s data_request (t, err e) d =
    (s.idle_dealer_ids ≡ []) × (s.raise_no_dealer ≡ true) × (t ≡ s) × (e ≡ no_dealer)
IdleAfter s (control_request idle sender) (t, _) d =
    contains t.idle_dealer_ids d ≡ (contains s.idle_dealer_ids d || str_eq sender d)
IdleAfter s _ (t, _) d = contains t.idle_dealer_ids d ≡ contains s.idle_dealer_ids d

no_receiver :
    (s : Router) (d : String) (raise : Bool)
    → s.idle_dealer_ids ≡ []
    → s.raise_no_dealer ≡ raise
    → IdleAfter s data_request (s, if raise then err no_dealer else ok untouched) d
no_receiver s d true e h = (e, h, refl, refl)
no_receiver s d false e h = (e, h, refl)

route_data-IdleAfter :
    (pop : List String → String) (s : Router) (d : String)
    → Picks pop
    → IsValid s
    → (ids : List String) → s.idle_dealer_ids ≡ ids
    → IdleAfter s data_request (route_data pop s ids) d
unfolding route_data dispatch
route_data-IdleAfter pop s d p v [] e = no_receiver s d s.raise_no_dealer e refl
route_data-IdleAfter pop s d p v (i ∷ ids) e = (
  ap (λ l. contains l (pop (i ∷ ids))) e ∙ p i ids,
  ap (λ l. contains l d) (set_idle-ids s (remove_id (pop (i ∷ ids)) s.idle_dealer_ids))
      ∙ contains-remove_id (pop (i ∷ ids)) d s.idle_dealer_ids v.distinct,
)

-- Of a valid router, and if `set.pop` gives an element: while a dealer is idle, a data request goes to
-- one that is, and this dealer alone is no longer idle; without an idle dealer the router stays as it
-- is, and the request has no receiver or, if the router is to raise then, is refused. A dealer
-- that reports to be idle is idle, and every other request leaves the idle dealers as they are.
pub route-IdleAfter :
    (pop : List String → String) (s : Router) (q : Request) (d : String)
    → Picks pop
    → IsValid s
    → IdleAfter s q (route pop s q) d
unfolding route
route-IdleAfter pop s data_request d p v = route_data-IdleAfter pop s d p v s.idle_dealer_ids refl
route-IdleAfter pop s (control_request idle sender) d p v = mark_idle-contains s sender d
route-IdleAfter pop s (control_request terminate sender) d p v = refl
route-IdleAfter pop s (control_request status sender) d p v = refl
route-IdleAfter pop s (control_request other sender) d p v = refl
