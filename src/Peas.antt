-- ===== src/Peas.antt =====
-- jina/peapods/pea.py: how a pea handles a message, and the parts of the message of
-- jina/types/message that this reads and writes.
pub mod Messages
pub mod Parts
pub mod Counting
mod Tests
use jina.Prelude.{
  ℕ, suc, String, Bool, true, false, ◌&&◌, ◌||◌, not, Option, none, some, List, [], ◌∷◌, ◌++◌, ltb,
  if◌then◌else◌, Result, ok, err, ◌>>=◌, length,
}
use jina.Prelude.Dict
use jina.Prelude.Dict.{Dict}
use jina.Enums.{SkipOnErrorType, skip_value}
use jina.Peas.Messages.{Message, add_route, merge_envelope_from, add_exception}

-- How `pre_hook`, `handle` and `post_hook` may end early: `NoExplicitMessage`,
-- `MemoryOverHighWatermark`, the exceptions that break the loop, `ChainedPodException`, and the
-- others, `KeyError` among them.
pub data PeaError : Type 0 where
  no_explicit_message memory_over_high_watermark break_loop chained_pod_error general_error :
      PeaError

-- The arguments that the handling reads and the messages that are not complete.
pub record Pea (R : Type 0) : Type 0 where
  pub name : String
  pub identity : String
  pub num_part : ℕ
  pub skip_on_error : SkipOnErrorType
  pub pending_msgs : Dict (List (Message R))

-- What a call of `msg_callback` does: it sends a message, it stays silent, it breaks the loop with a
-- message, or it raises.
pub data Effect (R : Type 0) : Type 0 where
  send : Message R → Effect R
  silent : Effect R
  terminate : Message R → Effect R
  raised : PeaError → Effect R

-- What is not in the pea: the clock, the memory in use (`used_memory() > memory_hwm > 0`), the
-- variable JINA_RAISE_ERROR_EARLY, and the executor, which is given the message and its parts, and
-- gives the request that it leaves and an exception.
pub record Surroundings (R : Type 0) : Type 0 where
  pub now : ℕ
  pub over_watermark : Bool
  pub raise_early : Bool
  pub executor : Message R → List (Message R) → R × Option PeaError

module _ {R : Type 0} where
  -- `_pending_msgs[req_id]` of a `defaultdict(list)`
  unfoldable pub pending : String → Dict (List (Message R)) → List (Message R)
  unfolding Dict.lookup
  pending id msgs = elim (Dict.lookup id msgs) [ none ↦ [] | some ms ↦ ms ]

  -- `expect_parts`
  unfoldable pub expect_parts : Pea R → Message R → ℕ
  expect_parts p msg = if msg.is_data_request then p.num_part else 1

  -- `pre_hook`
  unfoldable pub pre_hook : ℕ → Pea R → Message R → Pea R × Message R
  unfolding add_route expect_parts pending Dict.insert
  pre_hook now p msg =
      let m = add_route p.name p.identity now msg in
      let collected = pending m.request_id p.pending_msgs ++ (m ∷ []) in
      if ltb 1 (expect_parts p m)
      then (record p { pending_msgs = Dict.insert m.request_id collected p.pending_msgs }, m)
      else (p, m)

  -- `_partial_messages`, where a driver may ask for them
  unfoldable pub partial_messages : Pea R → Message R → List (Message R)
  unfolding expect_parts pending
  partial_messages p msg =
      if ltb 1 (expect_parts p msg) then pending msg.request_id p.pending_msgs else []

  -- `handle`
  unfoldable pub handle_message : Surroundings R → Pea R → Message R → Message R × Option PeaError
  unfolding partial_messages expect_parts
  handle_message w p msg =
      let parts = partial_messages p msg in
      let answer = w.executor msg parts in
      if ltb 1 (expect_parts p msg) && ltb (length parts) (expect_parts p msg)
      then (msg, some no_explicit_message)
      else if not msg.failed || ltb (skip_value p.skip_on_error) (skip_value SkipOnErrorType.handle)
      then (record msg { request = answer.0 }, answer.1)
      else (msg, some chained_pod_error)

  -- `post_hook`, without the dump of the executor; `none` of the pending messages is a `KeyError`.
  unfoldable pub post_hook :
      Surroundings R → Pea R → Message R → Pea R × Message R × Option PeaError
  unfolding expect_parts merge_envelope_from Dict.lookup Dict.remove
  post_hook w p msg =
      if w.over_watermark
      then (p, msg, some memory_over_high_watermark)
      else if ltb 1 (expect_parts p msg)
      then (elim (Dict.lookup msg.request_id p.pending_msgs) [
        | none ↦ (p, msg, some general_error)
        | some msgs ↦ (
          record p { pending_msgs = Dict.remove msg.request_id p.pending_msgs },
          merge_envelope_from msgs msg,
          none,
        )
      ])
      else (p, msg, none)

  -- The exceptions that `msg_callback` turns into a message
  unfoldable pub report : Surroundings R → Pea R → Message R → PeaError → Pea R × Effect R
  unfolding add_exception
  report w p msg e =
      if w.raise_early
      then (p, raised e)
      else (p, send (add_exception (elim e [ chained_pod_error ↦ false | _ ↦ true ]) msg))

  -- `msg_callback` after an exception of `_callback` before its `post_hook` is done
  unfoldable pub rescue : Surroundings R → Pea R → Message R → PeaError → Pea R × Effect R
  unfolding post_hook report
  rescue w p msg no_explicit_message = (p, silent)
  rescue w p msg memory_over_high_watermark = (p, silent)
  rescue w p msg break_loop = (p, terminate msg)
  rescue w p msg e =
      let (p', msg', failure) = post_hook w p msg in
      elim failure [ some f ↦ (p', raised f) | none ↦ report w p' msg' e ]

  -- The rest of `msg_callback` after `post_hook`, after `handle` and after `pre_hook`
  unfoldable pub after_post_hook :
      Surroundings R → Pea R × Message R × Option PeaError → Pea R × Effect R
  unfolding rescue
  after_post_hook w (p, msg, none) = (p, send msg)
  after_post_hook w (p, msg, some e) = rescue w p msg e

  unfoldable pub after_handle :
      Surroundings R → Pea R → Message R × Option PeaError → Pea R × Effect R
  unfolding rescue after_post_hook post_hook
  after_handle w p (msg, none) = after_post_hook w (post_hook w p msg)
  after_handle w p (msg, some e) = rescue w p msg e

  unfoldable pub after_pre_hook : Surroundings R → Pea R × Message R → Pea R × Effect R
  unfolding after_handle handle_message
  after_pre_hook w (p, msg) = after_handle w p (handle_message w p msg)

  -- `msg_callback` with `_callback`
  unfoldable pub msg_callback : Surroundings R → Pea R → Message R → Pea R × Effect R
  unfolding pre_hook after_pre_hook
  msg_callback w p msg = after_pre_hook w (pre_hook w.now p msg)
