-- ===== src/Peas/Tests.antt =====
-- A pea that waits for two parts of a request, and the theorems at it.
use jina.Prelude.{ℕ, ◌+◌, ◌*◌, ◌<◌, ◌≡◌, refl, true, false, none, List, [], ◌∷◌, length, arith}
use jina.Enums.{SkipOnErrorType}
use jina.Peas.{Pea, Surroundings, pending, msg_callback}
use jina.Peas.Messages.{Message}
use jina.Peas.Parts.{Answers, IsPartStep, msg_callback-IsPartStep}
use jina.Peas.Counting.{Step, IsOrdinary, run, arrivals, answered, run-arrivals}

abbrev surroundings : Surroundings ℕ
surroundings = record {
  now = 7;
  over_watermark = false;
  raise_early = false;
  executor = λ msg parts. (length parts, none);
}

abbrev joiner : Pea ℕ
joiner = record {
  name = "joiner";
  identity = "id";
  num_part = 2;
  skip_on_error = SkipOnErrorType.none;
  pending_msgs = [];
}

abbrev part : Message ℕ
part = record { request_id = "r"; is_data_request = true; failed = false; request = 0; routes = [] }

answers : Answers surroundings
answers msg parts = refl

msg_callback-IsPartStep_example : IsPartStep joiner part (msg_callback surroundings joiner part)
msg_callback-IsPartStep_example =
    msg_callback-IsPartStep surroundings joiner part refl refl refl answers

abbrev steps : List (Step ℕ)
steps = (surroundings, part) ∷ (surroundings, part) ∷ (surroundings, part) ∷ []

part-IsOrdinary : IsOrdinary (surroundings, part)
part-IsOrdinary = record { is_data = refl; calm = refl; answers = answers }

run-arrivals_example :
    (arrivals "r" steps
      ≡ answered "r" joiner steps * 2 + length (pending "r" (run joiner steps).pending_msgs))
    × (length (pending "r" (run joiner steps).pending_msgs) < 2)
run-arrivals_example =
    run-arrivals "r" joiner steps (part-IsOrdinary, (part-IsOrdinary, (part-IsOrdinary, tt)))
      (omega arith) refl
