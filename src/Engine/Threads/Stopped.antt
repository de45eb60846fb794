-- ===== src/Engine/Threads/Stopped.antt =====
-- pyoneer/engine.c: sequences of calls of an engine.
mod Samples
use pyoneer.Prelude.{
  ◌≡◌, ◌≢◌, ◌⊎◌, inl, inr, refl, Option, none, some, Bool, true, false, List, [], ◌∷◌, arith,
}
use pyoneer.Pthread.{Thread, alive, over, joined, ◌>>=◌}
use pyoneer.Engine.Threads.{
  EnginePointer, stop_thread, wait_thread, restart_thread, run_thread, destroy_thread,
}

-- The calls of a worker; the flags say whether the system lets a thread be created.
pub data EngineCall : Type 0 where
  run restart : Bool → EngineCall
  stop wait : EngineCall

unfoldable pub engine_call : EngineCall → EnginePointer → Option EnginePointer
engine_call (run launched) e = run_thread launched e
engine_call (restart created) e = restart_thread created e
engine_call stop e = stop_thread e
engine_call wait e = wait_thread e

unfoldable pub engine_calls : List EngineCall → EnginePointer → Option EnginePointer
engine_calls [] e = some e
engine_calls (c ∷ cs) e = do e' ← engine_call c e; engine_calls cs e'

-- Each call is a run of a job for which `job_run` gives no runner.
abbrev pub AllRefused : List EngineCall → Type 0
AllRefused [] = Unit
AllRefused (c ∷ cs) = (c ≡ run false) × AllRefused cs

-- A call that leaves the engine with a thread that was joined.
abbrev pub IsEnd : EngineCall → Type 0
IsEnd c = (c ≡ stop) ⊎ (c ≡ wait) ⊎ (c ≡ restart false)

abbrev stopped_engine : EnginePointer
stopped_engine = some (some joined)

-- What the outcome of calls of a stopped engine says of the calls.
unfoldable pub OnlyRefused : List EngineCall → Option EnginePointer → Type 0
OnlyRefused cs none = ¬ AllRefused cs
OnlyRefused cs (some e) = AllRefused cs × (destroy_thread e ≡ none)

OnlyRefused-∷ :
    (cs : List EngineCall) (r : Option EnginePointer)
    → OnlyRefused cs r
    → OnlyRefused (run false ∷ cs) r
unfolding OnlyRefused
OnlyRefused-∷ cs none h = λ (_, refused). h refused
OnlyRefused-∷ cs (some e) (refused, faults) = ((refl, refused), faults)

calls-OnlyRefused : (cs : List EngineCall) → OnlyRefused cs (engine_calls cs stopped_engine)
unfolding OnlyRefused engine_calls engine_call stop_thread wait_thread restart_thread run_thread
    destroy_thread
calls-OnlyRefused [] = (tt, refl)
calls-OnlyRefused (run false ∷ cs) =
    OnlyRefused-∷ cs (engine_calls cs stopped_engine) (calls-OnlyRefused cs)
calls-OnlyRefused (run true ∷ cs) = λ (e, _). absurd (ground (arith, e))
calls-OnlyRefused (restart b ∷ cs) = λ (e, _). absurd (ground (arith, e))
calls-OnlyRefused (stop ∷ cs) = λ (e, _). absurd (ground (arith, e))
calls-OnlyRefused (wait ∷ cs) = λ (e, _). absurd (ground (arith, e))

end-stopped :
    (c : EngineCall) (t : Thread)
    → IsEnd c
    → t ≢ joined
    → engine_call c (some (some t)) ≡ some stopped_engine
unfolding engine_call stop_thread wait_thread restart_thread
end-stopped c joined end held = absurd (held refl)
end-stopped c alive (inl e) held = rw e refl
end-stopped c alive (inr (inl e)) held = rw e refl
end-stopped c alive (inr (inr e)) held = rw e refl
end-stopped c over (inl e) held = rw e refl
end-stopped c over (inr (inl e)) held = rw e refl
end-stopped c over (inr (inr e)) held = rw e refl

-- Once an engine that holds a runner has been stopped or waited for, or restarted without a new thread, it is of no use: the calls that
-- follow are free of undefined behaviour only if each of them is a run that is refused, and even
-- then the destruction of the engine, as any other call would, joins a thread that was joined before.
pub stopped_for_good :
    (c : EngineCall) (t : Thread) (cs : List EngineCall)
    → IsEnd c
    → t ≢ joined
    → OnlyRefused cs (engine_calls (c ∷ cs) (some (some t)))
unfolding engine_calls
stopped_for_good c t cs end held = rw (end-stopped c t end held) (calls-OnlyRefused cs)
