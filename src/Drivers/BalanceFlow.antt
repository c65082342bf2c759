-- ===== src/Drivers/BalanceFlow.antt =====
-- That a router with dealers goes on: it polls again, and it gives each request to a dealer.
use jina.Prelude.{
  ℕ, ◌+◌, ◌≤◌, String, ◌≡◌, ◌≢◌, refl, sym, ap, ◌∙◌, Bool, true, false, List, [], ◌∷◌, eq_iff,
  arith, Bool-cases, inl, inr,
}
use jina.Prelude.Dict.{contains}
use jina.Drivers.Route.{
  Router, add_id, remove_id, dispatch, set_idle, route_data, mark_idle, route, resume_pollin,
}
use jina.Drivers.RouteLaws.{Picks, IsValid, mark_idle-ids}
use jina.Drivers.Balance.{
  Balance, new_balance, start_dealer, take_request, answer, deliver, hand_over, hand_to, post,
  send_idle, send_message,
}
use jina.Drivers.BalanceLaws.{
  occ, occ-absent, occ-contains, IsBalanced, Runs, no_step, start, take, done, read,
  Runs-IsBalanced, steps-IsBalanced, deliver-IsBalanced,
}

-- What one dealer does alone: it answers the request that it holds, and the router reads its report.
pub data OwnSteps (pop : List String → String) (d : String) : ℕ → Balance → Balance → Type 0 where
  none_taken : {s : Balance} → OwnSteps pop d 0 s s
  answers :
      {n : ℕ}
      → {s t : Balance} → contains s.jobs d ≡ true
      → OwnSteps pop d n (answer d s) t
      → OwnSteps pop d (1 + n) s t
  reports :
      {n : ℕ}
      → {s t : Balance} → contains s.notices d ≡ true
      → OwnSteps pop d n (deliver pop d s) t
      → OwnSteps pop d (1 + n) s t

deliver-polling :
    (pop : List String → String) (d : String) (s : Balance)
    → IsValid s.router
    → (deliver pop d s).router.is_polling ≡ true
unfolding deliver route mark_idle resume_pollin
deliver-polling pop d s v = elim (Bool-cases s.router.is_pollin_paused) [
  | inl paused ↦ rw paused refl
  | inr running ↦ rw running (ground (arith, v.polling))
]

answer-notices : (d : String) (s : Balance) → contains (answer d s).notices d ≡ true
unfolding answer post send_message send_idle
answer-notices d s = ground (arith, eq_iff d d)

answer-IsValid : (d : String) (s : Balance) → IsValid s.router → IsValid (answer d s).router
unfolding answer post send_message send_idle
answer-IsValid d s v = v

-- A state that polls, reached by at most two steps of a dealer
abbrev pub PollsAgain : (List String → String) → String → Balance → Type 0
PollsAgain pop d s =
    (n : ℕ) × (t : Balance) × (n ≤ 2) × OwnSteps pop d n s t × (t.router.is_polling ≡ true)

busy_dealer :
    (d : String) (s : Balance)
    → IsBalanced s
    → contains s.started d ≡ true
    → s.router.is_polling ≡ false
    → contains s.notices d ≡ false
    → contains s.jobs d ≡ true
busy_dealer d s b known stopped untold = elim (Bool-cases (contains s.jobs d)) [
  | inl busy ↦ busy
  | inr free ↦
      let no_idle = b.valid.paused (ground (arith, b.valid.polling)) in
      absurd (
        ground (
          arith,
          b.placed d,
          ap (occ d) no_idle,
          occ-absent d s.notices untold,
          occ-absent d s.jobs free,
        ))
]

polls-PollsAgain :
    (pop : List String → String) (d : String) (s : Balance)
    → IsBalanced s
    → contains s.started d ≡ true
    → PollsAgain pop d s
polls-PollsAgain pop d s b known = elim (Bool-cases s.router.is_polling) [
  | inl polls ↦ (0, s, ground arith, none_taken, polls)
  | inr stopped ↦ elim (Bool-cases (contains s.notices d)) [
    | inl told ↦
        (1, deliver pop d s, ground arith, reports told none_taken, deliver-polling pop d s b.valid)
    | inr untold ↦ (
      2,
      deliver pop d (answer d s),
      ground arith,
      answers (busy_dealer d s b known stopped untold) (reports (answer-notices d s) none_taken),
      deliver-polling pop d (answer d s) (answer-IsValid d s b.valid),
    )
  ]
]

-- From a new router, and if `set.pop` gives an element: whenever one dealer has started, the router
-- polls its incoming socket, or it does so again after at most two steps of that dealer, which
-- answers the request that it holds and reports. So the pause of the polling ends.
pub Runs-PollsAgain :
    (pop : List String → String) (raise_no_dealer : Bool) (d : String) {s : Balance}
    → Picks pop
    → Runs pop (new_balance raise_no_dealer) s
    → contains s.started d ≡ true
    → PollsAgain pop d s
Runs-PollsAgain pop raise d p r known =
    polls-PollsAgain pop d _ (Runs-IsBalanced pop raise p r) known

-- A router that some dealer has reported to: unless its polling is paused, a dealer is idle.
abbrev IsKnown : Router → Type 0
IsKnown s = s.is_pollin_paused ≡ false → s.idle_dealer_ids ≢ []

set_idle-IsKnown : (s : Router) (ids : List String) → IsKnown (set_idle s ids)
unfolding set_idle
set_idle-IsKnown s [] running = absurd (ground arith)
set_idle-IsKnown s (i ∷ ids) running = λ e. ground (arith, e)

add_id-filled : (d : String) (ids : List String) → add_id d ids ≢ []
add_id-filled d [] e = ground (arith, e)
add_id-filled d (i ∷ ids) e = elim (Bool-cases (contains (i ∷ ids) d)) [
  | inl known ↦ ground (arith, e)
  | inr fresh ↦ ground (arith, e)
]

mark_idle-IsKnown : (d : String) (s : Router) → IsKnown (mark_idle d s)
mark_idle-IsKnown d s running e = add_id-filled d s.idle_dealer_ids (sym (mark_idle-ids s d) ∙ e)

route_data-IsKnown :
    (pop : List String → String) (s : Router) (ids : List String)
    → IsKnown s
    → IsKnown (route_data pop s ids).0
unfolding route_data dispatch
route_data-IsKnown pop s [] k = k
route_data-IsKnown pop s (i ∷ ids) k =
    set_idle-IsKnown s (remove_id (pop (i ∷ ids)) s.idle_dealer_ids)

Runs-IsKnown :
    (pop : List String → String) {s t : Balance}
    → IsKnown s.router
    → Runs pop s t
    → IsKnown t.router
unfolding start_dealer take_request answer deliver route post send_message send_idle
Runs-IsKnown pop k no_step = k
Runs-IsKnown pop k (start r d fresh) = Runs-IsKnown pop k r
Runs-IsKnown pop k (take {t} r polls) =
    route_data-IsKnown pop t.router t.router.idle_dealer_ids (Runs-IsKnown pop k r)
Runs-IsKnown pop k (done r d busy) = Runs-IsKnown pop k r
Runs-IsKnown pop k (read {t} r d told) = mark_idle-IsKnown d t.router

idle_dealer-free :
    (d : String) (s : Balance)
    → IsBalanced s
    → contains s.router.idle_dealer_ids d ≡ true
    → (contains s.started d ≡ true) × (contains s.jobs d ≡ false)
idle_dealer-free d s b known =
    let once = b.placed d in
    let idle_once = occ-contains d s.router.idle_dealer_ids known in
    (
      ground (arith, once, idle_once),
      elim (Bool-cases (contains s.jobs d)) [
        | inl busy ↦ absurd (ground (arith, once, idle_once, occ-contains d s.jobs busy))
        | inr free ↦ free
      ],
    )

-- The next request goes to a dealer that has started and holds none.
abbrev pub IsAssigned : (List String → String) → Balance → Type 0
IsAssigned pop s =
    (d : String) × ((take_request pop s).jobs ≡ d ∷ s.jobs)
    × (contains s.started d ≡ true)
    × (contains s.jobs d ≡ false)

take_request-head :
    (pop : List String → String) (s : Balance) (i : String) (ids : List String)
    → s.router.idle_dealer_ids ≡ i ∷ ids
    → (take_request pop s).jobs ≡ pop (i ∷ ids) ∷ s.jobs
unfolding take_request route route_data hand_over hand_to
take_request-head pop s i ids e = rw e refl

take_request-IsAssigned :
    (pop : List String → String) (s : Balance) (ids : List String)
    → Picks pop
    → IsBalanced s
    → s.router.idle_dealer_ids ≡ ids
    → ids ≢ []
    → IsAssigned pop s
take_request-IsAssigned pop s [] p b e filled = absurd (filled refl)
take_request-IsAssigned pop s (i ∷ ids) p b e filled =
    let d = pop (i ∷ ids) in
    let (known, free) = idle_dealer-free d s b (ap (λ l. contains l d) e ∙ p i ids) in
    (d, take_request-head pop s i ids e, known, free)

-- From a new router, and if `set.pop` gives an element: once the router has read the report of a
-- first dealer, and whatever has happened since, each request that it reads goes to a dealer that has
-- started and holds no request.
pub deliver-Runs-IsAssigned :
    (pop : List String → String) (raise_no_dealer : Bool) (d : String) {s t : Balance}
    → Picks pop
    → Runs pop (new_balance raise_no_dealer) s
    → contains s.notices d ≡ true
    → Runs pop (deliver pop d s) t
    → t.router.is_polling ≡ true
    → IsAssigned pop t
unfolding deliver route
deliver-Runs-IsAssigned pop raise d {s} {t} p before told since polls =
    let b =
      steps-IsBalanced pop p (deliver-IsBalanced pop d s (Runs-IsBalanced pop raise p before) told)
        since in
    let known = Runs-IsKnown pop (mark_idle-IsKnown d s.router) since in
    take_request-IsAssigned pop t t.router.idle_dealer_ids p b refl
      (known (ground (arith, b.valid.polling)))
