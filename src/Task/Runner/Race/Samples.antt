-- ===== src/Task/Runner/Race/Samples.antt =====
-- blueprint/task.c: a child that exits with 0.
use pyoneer.Prelude.{◌≡◌, refl, some, [], ◌∷◌, arith}
use pyoneer.Prelude.Int.{pos}
use pyoneer.Task
use pyoneer.Task.Runner.{TaskRunner, Child, exited, exit_sentinal, sigsent}
use pyoneer.Task.Runner.Race.{mark, advance, over, start, race, result, race_orders}

abbrev child : Child
child = record { spawn_code = pos 0; status = exited 0 }

abbrev runner : TaskRunner
runner = record {
  task = record { status = Task.ready; name = some "a" };
  info = record { exit_code = exit_sentinal; signo = sigsent };
}

race_orders_example :
    ((race child (mark ∷ advance ∷ advance ∷ []) (start runner)).runner.task.status
      ≡ result runner child)
    × ((race child (advance ∷ mark ∷ advance ∷ []) (start runner)).runner.task.status
        ≡ result runner child)
    × ((race child (advance ∷ advance ∷ mark ∷ []) (start runner)).runner.task.status
        ≡ Task.running)
    × ((race child (advance ∷ advance ∷ mark ∷ []) (start runner)).phase ≡ over)
race_orders_example = race_orders child runner refl (ground arith)
