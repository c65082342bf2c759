-- ===== src/Drivers/BalanceTests.antt =====
-- A router with two dealers, run.
use jina.Prelude.{String, ◌≡◌, refl, true, false, List, [], ◌∷◌, arith, eq_iff}
use jina.Drivers.RouteLaws.{Picks}
use jina.Drivers.Balance.{
  Balance, on_out_sock, on_ctrl_sock, idle_on_in_sock, send_message, new_balance, start_dealer,
  take_request, deliver,
}
use jina.Drivers.BalanceLaws.{IsBalanced, Runs, no_step, start, take, read, Runs-IsBalanced}
use jina.Drivers.BalanceFlow.{PollsAgain, Runs-PollsAgain, IsAssigned, deliver-Runs-IsAssigned}

abbrev first_id : List String → String
first_id [] = ""
first_id (i ∷ ids) = i

first_id-Picks : Picks first_id
first_id-Picks d ids = ground (arith, eq_iff d d)

-- A dealer reports when it has sent its answer, and no other pea does.
dealer_run : send_message true true ≡ on_out_sock ∷ idle_on_in_sock ∷ []
unfolding send_message
dealer_run = refl

control_run : send_message true false ≡ on_ctrl_sock ∷ []
unfolding send_message
control_run = refl

puller_run : send_message false true ≡ on_out_sock ∷ []
unfolding send_message
puller_run = refl

-- Two dealers have started, and the report of the second one is on its way.
abbrev two_started : Balance
two_started = start_dealer "b" (start_dealer "a" (new_balance true))

abbrev a_reported : Balance
a_reported = deliver first_id "a" two_started

-- The only dealer that is known works: the polling is paused.
abbrev paused : Balance
paused = take_request first_id a_reported

paused_run : paused.router.is_polling ≡ false
unfolding start_dealer take_request deliver
paused_run = refl

paused-jobs_run : paused.jobs ≡ "a" ∷ []
unfolding start_dealer take_request deliver
paused-jobs_run = refl

two_started-Runs : Runs first_id (new_balance true) two_started
unfolding start_dealer
two_started-Runs = start (start no_step "a" refl) "b" refl

paused-since : Runs first_id a_reported paused
unfolding start_dealer deliver
paused-since = take no_step refl

paused-Runs : Runs first_id (new_balance true) paused
unfolding start_dealer deliver
paused-Runs = take (read two_started-Runs "a" refl) refl

b_reported-since : Runs first_id a_reported (deliver first_id "b" paused)
unfolding start_dealer deliver take_request
b_reported-since = read paused-since "b" refl

Runs-IsBalanced_example : IsBalanced paused
Runs-IsBalanced_example = Runs-IsBalanced first_id true first_id-Picks paused-Runs

Runs-PollsAgain_example : PollsAgain first_id "a" paused
unfolding start_dealer deliver take_request
Runs-PollsAgain_example = Runs-PollsAgain first_id true "a" first_id-Picks paused-Runs refl

deliver-Runs-IsAssigned_example : IsAssigned first_id (deliver first_id "b" paused)
unfolding start_dealer deliver take_request
deliver-Runs-IsAssigned_example =
    deliver-Runs-IsAssigned first_id true "a" first_id-Picks two_started-Runs refl b_reported-since
      refl
