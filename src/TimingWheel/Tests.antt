-- ===== src/TimingWheel/Tests.antt =====
-- The theorems on the timing wheel at a concrete wheel.
use libff.Prelude.{◌≡◌, refl, false, [], ◌∷◌, arith, ◌==◌, if◌then◌else◌}
use libff.TimingWheel.{TimingTask, TimingWheel, do_tick}
use libff.TimingWheel.Rounds.{countdown, do_tick_lem}

abbrev task : TimingTask
task = record { func = 5; round = 2; cancled = false }

-- The hand stands at 7, and the node 9 holds one task.
abbrev wheel_of_one : TimingWheel
wheel_of_one = record {
  current_pos = 7;
  wheel = λ i. if i == 9 then task ∷ [] else [];
  expired = [];
  stoped = false;
  last_tock = 1000;
}

do_tick_lem_example :
    ((do_tick 150 wheel_of_one).wheel 9 ≡ countdown 150 7 9 (task ∷ []))
    × ((do_tick 150 wheel_of_one).current_pos ≡ 57)
do_tick_lem_example = do_tick_lem 150 9 wheel_of_one (omega arith) (omega arith) (refl, tt)
