-- ===== src/Jobs/Tests.antt =====
-- The theorem of the job runner on a run: two jobs with one key, of which one is started.
use darknetra.Prelude.{◌≡◌, some, refl, ok, from_ok, [], false, arith}
use darknetra.Jobs.{Runner, Phase, JobStatus, submit, change, waits, runs}
use darknetra.Jobs.Steps.{Step, Reached}
use darknetra.Jobs.Limits.{IsOrderly}
use darknetra.Jobs.Orderly.{Reached-IsOrderly}

abbrev fresh : Runner
fresh = record { max_workers = 1; jobs = []; keys = []; closing = false }

abbrev one : Runner
one = (from_ok (0, fresh) (submit 5 (some 40) fresh)).1

fresh-submit : submit 5 (some 40) fresh ≡ ok (5, one)
unfolding submit
fresh-submit = refl

-- The second submission gives the job that has the key.
one-submit : submit 6 (some 40) one ≡ ok (5, one)
unfolding submit
one-submit = refl

busy-Reached : Reached 1 (change 5 runs (change 5 waits one))
unfolding submit
busy-Reached =
    Reached.after (change 5 waits one) (change 5 runs (change 5 waits one))
      (Reached.after one (change 5 waits one)
        (Reached.after one one
          (Reached.after fresh one Reached.new
            (Step.submits 5 (some 40) fresh 5 one refl fresh-submit))
          (Step.submits 6 (some 40) one 5 one refl one-submit))
        (Step.starts 5 one (
          record { id = 5; key = some 40; phase = Phase.created; status = JobStatus.queued },
          refl,
          refl,
        )))
      (Step.acquires 5 (change 5 waits one)
        (
          record { id = 5; key = some 40; phase = Phase.waiting; status = JobStatus.queued },
          refl,
          refl,
        )
        (omega arith))

Reached-IsOrderly_example : IsOrderly (change 5 runs (change 5 waits one))
Reached-IsOrderly_example = Reached-IsOrderly 1 (change 5 runs (change 5 waits one)) busy-Reached
