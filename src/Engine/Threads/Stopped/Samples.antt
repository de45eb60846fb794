-- ===== src/Engine/Threads/Stopped/Samples.antt =====
-- pyoneer/engine.c: an engine that is stopped, as a client does with `stop` and then `run`.
use pyoneer.Prelude.{◌≡◌, inl, refl, some, none, true, false, [], ◌∷◌, arith}
use pyoneer.Pthread.{alive, joined}
use pyoneer.Engine.Threads.{
  engine_create_thread, stop_thread, run_thread, restart_thread, wait_thread,
}
use pyoneer.Engine.Threads.Stopped.{
  run, restart, stop, wait, engine_call, engine_calls, OnlyRefused, stopped_for_good,
}

stopped_for_good_example :
    OnlyRefused
      (run false ∷ run true ∷ [])
      (engine_calls (stop ∷ run false ∷ run true ∷ []) (some (some alive)))
stopped_for_good_example =
    stopped_for_good stop alive (run false ∷ run true ∷ []) (inl refl) (ground arith)

stop-run : engine_calls (run true ∷ stop ∷ run true ∷ []) (some none) ≡ none
unfolding engine_calls engine_call stop_thread run_thread restart_thread wait_thread
stop-run = refl

runs :
    engine_calls (stop ∷ run true ∷ restart true ∷ run true ∷ wait ∷ []) (some none)
    ≡ some (some (some joined))
unfolding engine_calls engine_call stop_thread run_thread restart_thread wait_thread
runs = refl

no_engine : engine_calls (run false ∷ run true ∷ []) (engine_create_thread false) ≡ none
unfolding engine_create_thread engine_calls engine_call run_thread
no_engine = refl
