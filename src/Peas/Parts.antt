-- ===== src/Peas/Parts.antt =====
-- The messages that a pea collects until all parts of a request are there.
use jina.Prelude.{
  ℕ, suc, String, ◌≡◌, refl, Bool, true, false, ◌||◌, not, Option, none, some, List, [], ◌∷◌, ◌++◌,
  ltb, str_eq, eq_iff, if◌then◌else◌, length, length-append, arith, Bool-cases, inl, inr, ap, sym,
  ◌∙◌,
}
use mathlib.Core.Path.{subst}
use jina.Enums.{SkipOnErrorType, skip_value}
use jina.Prelude.Dict
use jina.Prelude.Dict.{Dict, lookup-insert, lookup-remove}
use jina.Peas.{
  PeaError, no_explicit_message, chained_pod_error, general_error, Pea, Effect, silent,
  Surroundings, pending, expect_parts, pre_hook, partial_messages, handle_message, post_hook,
  rescue, report, after_post_hook, after_handle, after_pre_hook, msg_callback,
}
use jina.Peas.Messages.{Message, add_route}

-- What `msg_callback` handles by `post_hook`
abbrev pub is_ordinary : Option PeaError → Bool
is_ordinary none = true
is_ordinary (some chained_pod_error) = true
is_ordinary (some general_error) = true
is_ordinary _ = false

module _ {R : Type 0} where
  abbrev pub is_silent : Effect R → Bool
  is_silent silent = true
  is_silent _ = false

  -- The executor raises nothing that ends the handling without `post_hook`.
  abbrev pub Answers : Surroundings R → Type 0
  Answers w =
      (msg : Message R) (parts : List (Message R)) → is_ordinary (w.executor msg parts).1 ≡ true

  pending-insert :
      (id other : String) (ms : List (Message R)) (msgs : Dict (List (Message R)))
      → pending other (Dict.insert id ms msgs)
        ≡ (if str_eq id other then ms else pending other msgs)
  unfolding pending
  pending-insert id other ms msgs = ground (arith, lookup-insert id other ms msgs)

  pending-remove :
      (id other : String) (msgs : Dict (List (Message R)))
      → pending other (Dict.remove id msgs) ≡ (if str_eq id other then [] else pending other msgs)
  unfolding pending
  pending-remove id other msgs = ground (arith, lookup-remove id other msgs)

  -- A pea that expects parts, and a data request that it has noted
  pub record Noted (w : Surroundings R) (p : Pea R) (msg : Message R) : Type 0 where
    pub many : ltb 1 p.num_part ≡ true
    pub is_data : msg.is_data_request ≡ true
    pub known : (ms : List (Message R)) × (Dict.lookup msg.request_id p.pending_msgs ≡ some ms)
    pub calm : w.over_watermark ≡ false

  module _ (w : Surroundings R) (p : Pea R) (msg : Message R) (h : Noted w p msg) where
    post_hook-Noted :
        ((post_hook w p msg).2 ≡ none)
        × ((post_hook w p msg).0.pending_msgs ≡ Dict.remove msg.request_id p.pending_msgs)
        × ((post_hook w p msg).0.num_part ≡ p.num_part)
    unfolding post_hook expect_parts
    post_hook-Noted = let (ms, e) = h.known in ground (arith, h.many, h.is_data, h.calm)

    rescue-Noted :
        (e : PeaError)
        → is_ordinary (some e) ≡ true
        → ((rescue w p msg e).0.pending_msgs ≡ Dict.remove msg.request_id p.pending_msgs)
          × (is_silent (rescue w p msg e).1 ≡ false)
          × ((rescue w p msg e).0.num_part ≡ p.num_part)
    unfolding rescue report
    rescue-Noted chained_pod_error o = let (a, b, c) = post_hook-Noted in ground arith
    rescue-Noted general_error o = let (a, b, c) = post_hook-Noted in ground arith
    rescue-Noted _ o = absurd (ground arith)

  handle_message-waiting :
      (w : Surroundings R) (p : Pea R) (msg : Message R) (n : ℕ) (parts : List (Message R))
      → expect_parts p msg ≡ n
      → partial_messages p msg ≡ parts
      → ltb 1 n ≡ true
      → ltb (length parts) n ≡ true
      → handle_message w p msg ≡ (msg, some no_explicit_message)
  unfolding handle_message
  handle_message-waiting w p msg n parts e f many few = rw (f, e, many, few) refl

  handle_message_complete :
      (w : Surroundings R) (p : Pea R) (msg : Message R) (n : ℕ) (parts : List (Message R))
      → Answers w
      → expect_parts p msg ≡ n
      → partial_messages p msg ≡ parts
      → ltb 1 n ≡ true
      → ltb (length parts) n ≡ false
      → (r : R) × (failure : Option PeaError) × (handle_message w p msg
          ≡ (record msg { request = r }, failure))
        × (is_ordinary failure ≡ true)
  unfolding handle_message
  handle_message_complete w p msg n parts answers e f many all_there =
      elim (Bool-cases
        (not msg.failed || ltb (skip_value p.skip_on_error) (skip_value SkipOnErrorType.handle))) [
          | inl runs ↦ (
            (w.executor msg parts).0,
            (w.executor msg parts).1,
            rw (f, e, many, all_there, runs) refl,
            answers msg parts,
          )
          | inr skips ↦
              (msg.request, some chained_pod_error, rw (f, e, many, all_there, skips) refl, refl)
        ]

  -- What a call of `msg_callback` does about the parts of a request: how many wait afterwards, that
  -- it is silent exactly if they still wait, that other requests' parts stay, and that the number
  -- of the expected parts stays.
  abbrev pub IsPartStep : Pea R → Message R → Pea R × Effect R → Type 0
  IsPartStep p msg (q, effect) =
      let arrived = suc (length (pending msg.request_id p.pending_msgs)) in
      (length (pending msg.request_id q.pending_msgs)
        ≡ (if ltb arrived p.num_part then arrived else 0))
      × (is_silent effect ≡ ltb arrived p.num_part)
      × ((other : String)
          → str_eq msg.request_id other ≡ false
          → pending other q.pending_msgs ≡ pending other p.pending_msgs)
      × (q.num_part ≡ p.num_part)

  module _ (w : Surroundings R) (p : Pea R) (msg : Message R) (many : ltb 1 p.num_part ≡ true)
      (is_data : msg.is_data_request ≡ true) (calm : w.over_watermark ≡ false) where
    abbrev noted_message : Message R
    noted_message = add_route p.name p.identity w.now msg

    abbrev collected : List (Message R)
    collected = pending msg.request_id p.pending_msgs ++ (noted_message ∷ [])

    abbrev noted : Pea R
    noted = record p { pending_msgs = Dict.insert msg.request_id collected p.pending_msgs }

    pre_hook-noted : pre_hook w.now p msg ≡ (noted, noted_message)
    unfolding pre_hook expect_parts add_route
    pre_hook-noted = rw (is_data, many) refl

    noted-parts : partial_messages noted noted_message ≡ collected
    unfolding partial_messages expect_parts add_route
    noted-parts =
        rw (is_data, many)
          (ground (
            arith,
            pending-insert msg.request_id msg.request_id collected p.pending_msgs,
            eq_iff msg.request_id msg.request_id,
          ))

    noted-expect : expect_parts noted noted_message ≡ p.num_part
    unfolding expect_parts add_route
    noted-expect = rw is_data refl

    -- A part that is not the last is noted and nothing else is done.
    msg_callback-waiting :
        ltb (length collected) p.num_part ≡ true → msg_callback w p msg ≡ (noted, silent)
    unfolding msg_callback after_pre_hook after_handle rescue
    msg_callback-waiting few =
        ap (after_pre_hook w) pre_hook-noted
        ∙ ap (after_handle w noted) (
            handle_message-waiting w noted noted_message p.num_part collected noted-expect
              noted-parts many few)

    Noted-request : (r : R) → Noted w noted (record noted_message { request = r })
    unfolding add_route
    Noted-request r = record {
      many = many;
      is_data = is_data;
      known = (
        collected,
        ground (
          arith,
          lookup-insert msg.request_id msg.request_id collected p.pending_msgs,
          eq_iff msg.request_id msg.request_id,
        ),
      );
      calm = calm;
    }

    -- What is left after a message whose handling is over
    IsSettled : Pea R × Effect R → Type 0
    IsSettled (q, effect) =
        (q.pending_msgs ≡ Dict.remove msg.request_id noted.pending_msgs)
        × (is_silent effect ≡ false)
        × (q.num_part ≡ p.num_part)

    after_post_hook-IsSettled :
        (t : Pea R × Message R × Option PeaError)
        → t.2 ≡ none
        → t.0.pending_msgs ≡ Dict.remove msg.request_id noted.pending_msgs
        → t.0.num_part ≡ p.num_part
        → IsSettled (after_post_hook w t)
    unfolding IsSettled after_post_hook
    after_post_hook-IsSettled (q, m, none) e removed parts = (removed, refl, parts)
    after_post_hook-IsSettled (q, m, some f) e removed parts = cc

    after_handle-IsSettled :
        (r : R) (failure : Option PeaError)
        → is_ordinary failure ≡ true
        → IsSettled (after_handle w noted (record noted_message { request = r }, failure))
    unfolding IsSettled add_route after_handle
    after_handle-IsSettled r (some e) o = rescue-Noted w noted _ (Noted-request r) e o
    after_handle-IsSettled r none o =
        let (no_failure, removed, parts) = post_hook-Noted w noted _ (Noted-request r) in
        after_post_hook-IsSettled _ no_failure removed parts

    -- The last part ends the handling of its request, whatever the executor answers.
    msg_callback-IsSettled :
        Answers w → ltb (length collected) p.num_part ≡ false → IsSettled (msg_callback w p msg)
    unfolding msg_callback after_pre_hook
    msg_callback-IsSettled answers all_there =
        let (r, failure, e, o) =
          handle_message_complete w noted noted_message p.num_part collected answers noted-expect
            noted-parts many all_there in
        subst IsSettled (sym (ap (after_pre_hook w) pre_hook-noted ∙ ap (after_handle w noted) e))
          (after_handle-IsSettled r failure o)

    collected-length : length collected ≡ suc (length (pending msg.request_id p.pending_msgs))
    collected-length =
        omega (arith, length-append (pending msg.request_id p.pending_msgs) (noted_message ∷ []))

    noted-IsPartStep : ltb (length collected) p.num_part ≡ true → IsPartStep p msg (noted, silent)
    noted-IsPartStep few =
        let count = collected-length in
        let same = pending-insert msg.request_id msg.request_id collected p.pending_msgs in
        (
          ground (arith, eq_iff msg.request_id msg.request_id),
          ground arith,
          λ other differ.
              ground (arith, pending-insert msg.request_id other collected p.pending_msgs),
          refl,
        )

    settled-IsPartStep :
        (q : Pea R) (effect : Effect R)
        → IsSettled (q, effect)
        → ltb (length collected) p.num_part ≡ false
        → IsPartStep p msg (q, effect)
    unfolding IsSettled
    settled-IsPartStep q effect (removed, loud, parts) all_there =
        let count = collected-length in
        let id = msg.request_id in
        (
          ground (arith, pending-remove id id noted.pending_msgs, eq_iff id id),
          ground arith,
          λ other differ. ground (
            arith,
            pending-remove id other noted.pending_msgs,
            pending-insert id other collected p.pending_msgs,
          ),
          parts,
        )

    -- A pea that expects several parts, given a data request, while memory is not short and the
    -- executor raises nothing that breaks the loop or asks for silence: the message is noted and the
    -- pea is silent while parts are missing; with the last part it is not silent, and no part of the
    -- request is left. The parts of other requests stay.
    pub msg_callback-IsPartStep : Answers w → IsPartStep p msg (msg_callback w p msg)
    msg_callback-IsPartStep answers = elim (Bool-cases (ltb (length collected) p.num_part)) [
      | inl few ↦ subst (IsPartStep p msg) (sym (msg_callback-waiting few)) (noted-IsPartStep few)
      | inr all_there ↦ settled-IsPartStep _ _ (msg_callback-IsSettled answers all_there) all_there
    ]
