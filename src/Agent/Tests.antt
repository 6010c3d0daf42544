-- ===== src/Agent/Tests.antt =====
-- The theorems of threads and runs at concrete inputs.
use darknetra.Prelude.{◌≡◌, List, refl, ok, some, none, codes, from_ok, false, true, [], ◌∷◌, arith}
use darknetra.Samples.{office}
use darknetra.Decisions.Samples.{exhibit, room}
use darknetra.Agent.Budget.{ExecutionBudget, DelegationState, remaining, charge}
use darknetra.Agent.Events.{RunEvent}
use darknetra.Agent.Runs.{
  Run, RunStatus, Settings, Harness, HarnessMode, Store, Ending, post_message, attach,
  select_harness, finish_run, queued_run,
}
use darknetra.Agent.Limits.{IsLimited, post_message-IsLimited}
use darknetra.Agent.Ending.{finish_run-once}

abbrev nested : ExecutionBudget
nested = ExecutionBudget.within 90 12 3 (ExecutionBudget.root 300 48 10)

abbrev spent : ExecutionBudget
spent = ExecutionBudget.within 90 12 4 (ExecutionBudget.root 300 48 11)

abbrev logged : List RunEvent
logged = record { case_id = 1; run_id = 8; seq = 1; type = "run.started"; at = 4 } ∷ []

abbrev settings : Settings
settings = record {
  harness_mode = HarnessMode.auto;
  offline_mode = false;
  nim_ready = true;
  has_anthropic_key = false;
}

abbrev old_run : Run
old_run = record (queued_run 8 1 71 Harness.nim) { status = RunStatus.running }

abbrev service : Store
service = record {
  dir = office;
  audit = [];
  evidence = exhibit ∷ [];
  threads = room ∷ [];
  runs = old_run ∷ [];
  events = logged;
  messages = [];
}

abbrev posted : Run × Store
posted =
    from_ok (old_run, service)
      (post_message 100 9 settings none service 1 70 (codes "Who owns it?") (4 ∷ []))

service-posts :
    post_message 100 9 settings none service 1 70 (codes "Who owns it?") (4 ∷ [])
    ≡ ok (posted.0, posted.1)
unfolding post_message attach select_harness remaining
service-posts = refl

service-IsLimited : IsLimited service.runs
service-IsLimited case_id thread_id = (ground arith, ground arith)

post_message-IsLimited_example : IsLimited posted.1.runs
post_message-IsLimited_example =
    post_message-IsLimited 100 9 settings none service 1 70 (codes "Who owns it?") (4 ∷ []) posted.0
      posted.1 service-IsLimited service-posts

abbrev success : Ending
success = record {
  status = RunStatus.done;
  has_error = false;
  cost_usd = some 120;
  tokens_in = 5;
  tokens_out = 6;
}

abbrev failure : Ending
failure = record {
  status = RunStatus.error;
  has_error = true;
  cost_usd = some 7;
  tokens_in = 0;
  tokens_out = 0;
}

abbrev finished : Store
finished = from_ok service (finish_run 200 success posted.1 1 70 9)

posted-finishes : finish_run 200 success posted.1 1 70 9 ≡ ok finished
unfolding finish_run charge post_message attach select_harness remaining
posted-finishes = refl

finish_run-once_example : finish_run 210 failure finished 1 70 9 ≡ ok finished
finish_run-once_example =
    finish_run-once 200 210 success failure posted.1 finished 1 70 9 refl posted-finishes

abbrev pool : DelegationState
pool = record { worker_pool = 300; children = 0; spent = 0 }

abbrev one_child : DelegationState
one_child = record { worker_pool = 300; children = 1; spent = 50 }
