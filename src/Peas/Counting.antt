-- ===== src/Peas/Counting.antt =====
-- How often a pea answers when it is given one message after another.
use jina.Prelude.{
  ℕ, suc, ◌+◌, ◌*◌, ◌<◌, String, ◌≡◌, refl, Bool, true, false, ◌&&◌, not, List, [], ◌∷◌, ltb,
  str_eq, eq_iff, if◌then◌else◌, length, arith, Bool-cases, inl, inr, All, ap, sym, ◌∙◌,
}
use mathlib.Core.Path.{subst}
use jina.Prelude.Dict
use jina.Peas.{Pea, Surroundings, pending, msg_callback}
use jina.Peas.Messages.{Message}
use jina.Peas.Parts.{is_silent, Answers, IsPartStep, msg_callback-IsPartStep}

-- What a pea is given, one message after another
abbrev pub Step : Type 0 → Type 0
Step R = Surroundings R × Message R

-- The two cases of a message of the request itself
silent_count :
    (k arrived ans n waiting : ℕ)
    → suc k + arrived ≡ ans * n + waiting
    → k + suc arrived ≡ ans * n + waiting
silent_count k arrived ans n waiting h = omega (arith, h)

loud_count :
    (k arrived ans n waiting : ℕ)
    → suc k ≡ n
    → 0 + arrived ≡ ans * n + waiting
    → k + suc arrived ≡ suc ans * n + waiting
loud_count k arrived ans n waiting e h = omega (arith, e, h)

small_count : (k k' n n' : ℕ) → k < n → k' ≡ (if ltb (suc k) n then suc k else 0) → n' ≡ n → k' < n'
small_count k k' n n' few now parts = ground arith

-- The step of the sum at a message of the request
this_count :
    (k k' arrived ans n n' waiting : ℕ) (quiet : Bool)
    → k < n
    → k' ≡ (if ltb (suc k) n then suc k else 0)
    → quiet ≡ ltb (suc k) n
    → n' ≡ n
    → k' + arrived ≡ ans * n' + waiting
    → k + suc arrived ≡ (if not quiet then suc ans else ans) * n + waiting
this_count k k' arrived ans n n' waiting quiet few now q parts h =
    elim (Bool-cases (ltb (suc k) n)) [
      | inl missing ↦
          let now' : k' ≡ suc k = ground arith in
          rw (q, missing) (silent_count k arrived ans n waiting (rw⁻¹ (now', parts) h))
      | inr complete ↦
          let now' : k' ≡ 0 = ground arith in
          let last : suc k ≡ n = ground arith in
          rw (q, complete) (loud_count k arrived ans n waiting last (rw⁻¹ (now', parts) h))
    ]

module _ {R : Type 0} where
  -- A data request, while memory is not short and the executor answers
  pub record IsOrdinary (step : Step R) : Type 0 where
    pub is_data : step.1.is_data_request ≡ true
    pub calm : step.0.over_watermark ≡ false
    pub answers : Answers step.0

  -- The calls of `msg_callback`
  abbrev pub run : Pea R → List (Step R) → Pea R
  run p [] = p
  run p ((w, msg) ∷ steps) = run (msg_callback w p msg).0 steps

  -- The messages of a request
  abbrev pub arrivals : String → List (Step R) → ℕ
  arrivals id [] = 0
  arrivals id ((w, msg) ∷ steps) =
      let rest = arrivals id steps in if str_eq msg.request_id id then suc rest else rest

  -- The messages of a request at which the pea is not silent
  abbrev pub answered : String → Pea R → List (Step R) → ℕ
  answered id p [] = 0
  answered id p ((w, msg) ∷ steps) =
      let t = msg_callback w p msg in
      let rest = answered id t.0 steps in
      if str_eq msg.request_id id && not (is_silent t.1) then suc rest else rest

  -- The number of parts that wait, their request's calls that were answered and its messages, from
  -- any number of parts that waited before
  IsCounted : String → Pea R → List (Step R) → Type 0
  IsCounted id p steps =
      let waiting = length (pending id (run p steps).pending_msgs) in
      (length (pending id p.pending_msgs) + arrivals id steps
        ≡ answered id p steps * p.num_part + waiting)
      × (waiting < p.num_part)

  IsCounted-step :
      (id : String) (p : Pea R) (w : Surroundings R) (msg : Message R) (steps : List (Step R))
      → IsPartStep p msg (msg_callback w p msg)
      → length (pending id p.pending_msgs) < p.num_part
      → (length (pending id (msg_callback w p msg).0.pending_msgs) < p.num_part
          → IsCounted id (msg_callback w p msg).0 steps)
      → IsCounted id p ((w, msg) ∷ steps)
  unfolding IsCounted
  IsCounted-step id p w msg steps (now, quiet, others, parts) few rest =
      elim (Bool-cases (str_eq msg.request_id id)) [
        | inr other ↦
            let same : length (pending id (msg_callback w p msg).0.pending_msgs)
                ≡ length (pending id p.pending_msgs) =
              ap length (others id other) in
            let (sum, wait) = rest (omega (arith, same, parts, few)) in
            (
              rw other (
                  sym (ap (λ k. k + arrivals id steps) same)
                  ∙ sum
                  ∙ ap
                      (λ n.
                        answered id (msg_callback w p msg).0 steps * n
                        + length (pending id (run (msg_callback w p msg).0 steps).pending_msgs))
                      parts),
              omega (arith, wait, parts),
            )
        | inl this ↦
            let e = (eq_iff msg.request_id id).0 this in
            let now' =
              subst
                (λ r. length (pending r (msg_callback w p msg).0.pending_msgs) ≡ (
                  if ltb (suc (length (pending r p.pending_msgs))) p.num_part
                  then suc (length (pending r p.pending_msgs))
                  else 0))
                e now in
            let quiet' =
              subst
                (λ r.
                  is_silent (msg_callback w p msg).1
                  ≡ ltb (suc (length (pending r p.pending_msgs))) p.num_part)
                e quiet in
            let (sum, wait) = rest (small_count _ _ _ _ few now' refl) in
            (
              rw this (
                  this_count _ _ (arrivals id steps) (answered id (msg_callback w p msg).0 steps)
                    p.num_part _ _ _ few now' quiet' parts sum),
              omega (arith, wait, parts),
            )
      ]

  no_pending :
      (id : String) (p : Pea R) → p.pending_msgs ≡ [] → length (pending id p.pending_msgs) ≡ 0
  unfolding pending Dict.lookup
  no_pending id p empty = rw empty refl

  counted :
      (id : String) (p : Pea R) (steps : List (Step R))
      → All IsOrdinary steps
      → 1 < p.num_part
      → length (pending id p.pending_msgs) < p.num_part
      → IsCounted id p steps
  unfolding IsCounted
  counted id p [] h many few = (omega arith, few)
  counted id p ((w, msg) ∷ steps) (h, hs) many few =
      let step = msg_callback-IsPartStep w p msg (ground arith) h.is_data h.calm h.answers in
      let parts = step.3 in
      IsCounted-step id p w msg steps step few (λ few'.
        counted id (msg_callback w p msg).0 steps hs (ground arith) (omega (arith, few', parts)))

  -- Of a pea that has no part of any request and is given data requests one after another, while
  -- memory is not short and the executor answers: the messages of a request are as many as the calls
  -- that answer it, times the parts that the pea expects, and the parts that wait; and these are
  -- fewer than the expected parts.
  pub run-arrivals :
      (id : String) (p : Pea R) (steps : List (Step R))
      → All IsOrdinary steps
      → 1 < p.num_part
      → p.pending_msgs ≡ []
      → (arrivals id steps
          ≡ answered id p steps * p.num_part + length (pending id (run p steps).pending_msgs))
        × (length (pending id (run p steps).pending_msgs) < p.num_part)
  unfolding IsCounted
  run-arrivals id p steps h many empty =
      let none_waits = no_pending id p empty in
      let (sum, few) = counted id p steps h many (omega (arith, many, none_waits)) in
      (omega (arith, sum, none_waits), few)
