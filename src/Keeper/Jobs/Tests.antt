-- ===== src/Keeper/Jobs/Tests.antt =====
-- The chain of the keeper's jobs, where the first of three throws.
use anqa_core.Common.{ℕ, refl, ◌<◌, ◌≡◌, false, Option, none, some, ◌==◌, if◌then◌else◌, arith}
use anqa_core.Keeper.Jobs.{
  Chain, Job, Phase, running, threw, idle, risk_job, begin, finish, Reach, start, calls, begins,
  ends, is_over, IsSerial, Moves, chain-IsSerial, chain-Moves,
}

-- Three jobs are called; the first one has thrown.
abbrev three_called : Chain
three_called = risk_job (risk_job (risk_job idle))

abbrev job : Option ℕ → Phase → Job
job after phase = record { after = after; phase = phase }

abbrev first_runs : Chain
first_runs = record three_called {
  jobs = λ j. if j == 0 then job none running else three_called.jobs j;
}

abbrev first_threw : Chain
first_threw = record three_called {
  jobs = λ j. if j == 0 then job none threw else first_runs.jobs j;
}

first_begins : begin 0 three_called ≡ some first_runs
unfolding begin risk_job
first_begins = refl

first_ends : finish 0 false first_runs ≡ some first_threw
unfolding finish risk_job
first_ends = refl

first_threw-Reach : Reach first_threw
first_threw-Reach = ends 0 false (begins 0 (calls (calls (calls start))) first_begins) first_ends

chain-IsSerial_example : IsSerial first_threw
chain-IsSerial_example = chain-IsSerial first_threw-Reach

last_left : (2 < first_threw.count) × (is_over (first_threw.jobs 2).phase ≡ false)
unfolding risk_job
last_left = (omega arith, refl)

chain-Moves_example : Moves first_threw 2
chain-Moves_example = chain-Moves 2 first_threw-Reach last_left.0 last_left.1
