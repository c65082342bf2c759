-- ===== src/Drivers/BalanceLaws.antt =====
-- Where the dealers of a router are while requests come and go.
use jina.Prelude.{
  ℕ, ◌+◌, ◌≤◌, String, ◌≡◌, refl, ap, Bool, true, false, List, [], ◌∷◌, str_eq, eq_iff,
  if◌then◌else◌, ok, err, arith, Bool-cases, inl, inr,
}
use jina.Prelude.Dict.{contains}
use jina.Drivers.Route.{
  data_request, Router, add_id, remove_id, dispatch, route_data, route, no_dealer, untouched,
}
use jina.Drivers.RouteLaws.{
  Picks, Distinct, IsValid, route-IsValid, set_idle-ids, mark_idle-ids, mark_idle-IsValid,
}
use jina.Drivers.Balance.{
  Balance, new_balance, start_dealer, take_request, answer, deliver, hand_over, hand_to, post,
  send_idle, send_message,
}

abbrev is_dealer : String → String → ℕ
is_dealer k d = if str_eq k d then 1 else 0

-- How often a dealer is listed
abbrev pub occ : String → List String → ℕ
occ d [] = 0
occ d (i ∷ ids) = is_dealer i d + occ d ids

pub occ-absent : (d : String) (ids : List String) → contains ids d ≡ false → occ d ids ≡ 0
occ-absent d [] h = refl
occ-absent d (i ∷ ids) h = ground (arith, occ-absent d ids)

pub occ-contains : (d : String) (ids : List String) → contains ids d ≡ true → 1 ≤ occ d ids
occ-contains d [] h = absurd (ground arith)
occ-contains d (i ∷ ids) h = ground (arith, occ-contains d ids)

occ-Distinct : (d : String) (ids : List String) → Distinct ids → occ d ids ≤ 1
occ-Distinct d [] h = ground arith
occ-Distinct d (i ∷ ids) (fresh, h) =
    ground (arith, occ-Distinct d ids h, occ-absent d ids, eq_iff i d)

occ-remove_id :
    (d k : String) (ids : List String)
    → contains ids k ≡ true
    → occ d ids ≡ is_dealer k d + occ d (remove_id k ids)
unfolding remove_id
occ-remove_id d k [] h = absurd (ground arith)
occ-remove_id d k (i ∷ ids) h =
    ground (arith, occ-remove_id d k ids, eq_iff i k, eq_iff i d, eq_iff k d)

occ-add_id :
    (d k : String) (ids : List String)
    → contains ids k ≡ false
    → occ d (add_id k ids) ≡ is_dealer k d + occ d ids
occ-add_id d k ids h = rw h refl

-- A dealer that has started is at one place: idle to the router, on its way to report that, or busy
-- with one request. Any other name is nowhere.
abbrev pub IsPlaced : Balance → String → Type 0
IsPlaced s d =
    occ d s.router.idle_dealer_ids + (occ d s.notices + occ d s.jobs)
    ≡ (if contains s.started d then 1 else 0)

pub record IsBalanced (s : Balance) : Type 0 where
  pub valid : IsValid s.router
  pub placed : (d : String) → IsPlaced s d

start_dealer-IsBalanced :
    (d : String) (s : Balance)
    → IsBalanced s
    → contains s.started d ≡ false
    → IsBalanced (start_dealer d s)
unfolding start_dealer post send_idle
start_dealer-IsBalanced d s b fresh = record {
  valid = b.valid;
  placed = λ e. ground (arith, b.placed e, b.placed d, eq_iff d e);
}

answer-IsBalanced :
    (d : String) (s : Balance) → IsBalanced s → contains s.jobs d ≡ true → IsBalanced (answer d s)
unfolding answer post send_message send_idle
answer-IsBalanced d s b busy = record {
  valid = b.valid;
  placed = λ e. ground (arith, b.placed e, occ-remove_id e d s.jobs busy);
}

told-busy :
    (d : String) (s : Balance)
    → IsBalanced s
    → contains s.notices d ≡ true
    → contains s.router.idle_dealer_ids d ≡ false
told-busy d s b told = elim (Bool-cases (contains s.router.idle_dealer_ids d)) [
  | inl known ↦ absurd (
      ground (
        arith,
        b.placed d,
        occ-contains d s.notices told,
        occ-contains d s.router.idle_dealer_ids known,
      ))
  | inr fresh ↦ fresh
]

pub deliver-IsBalanced :
    (pop : List String → String) (d : String) (s : Balance)
    → IsBalanced s
    → contains s.notices d ≡ true
    → IsBalanced (deliver pop d s)
unfolding deliver route
deliver-IsBalanced pop d s b told =
    let fresh = told-busy d s b told in
    record {
      valid = mark_idle-IsValid d s.router b.valid;
      placed = λ e. ground (
        arith,
        b.placed e,
        occ-remove_id e d s.notices told,
        ap (occ e) (mark_idle-ids s.router d),
        occ-add_id e d s.router.idle_dealer_ids fresh,
      );
    }

no_receiver :
    (e : String) (raise : Bool) (jobs : List String)
    → hand_over (if raise then err no_dealer else ok untouched) jobs ≡ jobs
unfolding hand_over hand_to
no_receiver e true jobs = refl
no_receiver e false jobs = refl

route_data-occ :
    (pop : List String → String) (s : Router) (e : String) (jobs ids : List String)
    → Picks pop
    → s.idle_dealer_ids ≡ ids
    → occ e (route_data pop s ids).0.idle_dealer_ids
        + occ e (hand_over (route_data pop s ids).1 jobs)
      ≡ occ e ids + occ e jobs
unfolding route_data dispatch hand_over hand_to
route_data-occ pop s e jobs [] p same =
    ground (arith, ap (occ e) same, ap (occ e) (no_receiver e s.raise_no_dealer jobs))
route_data-occ pop s e jobs (i ∷ ids) p same =
    let d = pop (i ∷ ids) in
    ground (
      arith,
      ap (occ e) (set_idle-ids s (remove_id d s.idle_dealer_ids)),
      ap (λ l. occ e (remove_id d l)) same,
      occ-remove_id e d (i ∷ ids) (p i ids),
    )

take_request-IsBalanced :
    (pop : List String → String) (s : Balance)
    → Picks pop
    → IsBalanced s
    → IsBalanced (take_request pop s)
unfolding take_request route
take_request-IsBalanced pop s p b = record {
  valid = route-IsValid pop s.router data_request b.valid;
  placed = λ e.
      ground
        (arith, b.placed e, route_data-occ pop s.router e s.jobs s.router.idle_dealer_ids p refl);
}

-- What dealers and a router do one after another, in any order: the router reads its incoming
-- socket only while it polls it.
pub data Runs (pop : List String → String) (s : Balance) : Balance → Type 0 where
  no_step : Runs pop s s
  start :
      {t : Balance}
      → Runs pop s t
      → (d : String) → contains t.started d ≡ false
      → Runs pop s (start_dealer d t)
  take : {t : Balance} → Runs pop s t → t.router.is_polling ≡ true → Runs pop s (take_request pop t)
  done :
      {t : Balance}
      → Runs pop s t
      → (d : String) → contains t.jobs d ≡ true
      → Runs pop s (answer d t)
  read :
      {t : Balance}
      → Runs pop s t
      → (d : String) → contains t.notices d ≡ true
      → Runs pop s (deliver pop d t)

new_balance-IsBalanced : (raise_no_dealer : Bool) → IsBalanced (new_balance raise_no_dealer)
new_balance-IsBalanced raise_no_dealer = record {
  valid = record { distinct = tt; polling = refl; paused = λ e. refl };
  placed = λ d. refl;
}

pub steps-IsBalanced :
    (pop : List String → String) {s t : Balance}
    → Picks pop
    → IsBalanced s
    → Runs pop s t
    → IsBalanced t
steps-IsBalanced pop p b no_step = b
steps-IsBalanced pop p b (start {t} r d fresh) =
    start_dealer-IsBalanced d t (steps-IsBalanced pop p b r) fresh
steps-IsBalanced pop p b (take {t} r polls) =
    take_request-IsBalanced pop t p (steps-IsBalanced pop p b r)
steps-IsBalanced pop p b (done {t} r d busy) =
    answer-IsBalanced d t (steps-IsBalanced pop p b r) busy
steps-IsBalanced pop p b (read {t} r d told) =
    deliver-IsBalanced pop d t (steps-IsBalanced pop p b r) told

-- From a new router, and if `set.pop` gives an element: however the dealers start, requests arrive
-- and messages are delayed, the router is well-formed, and a dealer that has started is either idle
-- to the router, or about to be reported idle, or at work, and this once only; any other is nowhere.
pub Runs-IsBalanced :
    (pop : List String → String) (raise_no_dealer : Bool) {s : Balance}
    → Picks pop
    → Runs pop (new_balance raise_no_dealer) s
    → IsBalanced s
Runs-IsBalanced pop raise p r = steps-IsBalanced pop p (new_balance-IsBalanced raise) r
