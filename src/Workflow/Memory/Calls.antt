-- ===== src/Workflow/Memory/Calls.antt =====
-- Sequences of calls on one MemoryStore (internal/workflow/store.go).
use skilar.Prelude.{ℕ, List, [], ◌∷◌, Text}
use skilar.Workflow.Types.{Workflow, Transition, Attempt, ResultEnvelope}
use skilar.Workflow.Memory
use skilar.Workflow.Memory.{MemoryStore}

-- A call of one of the methods that change the store.
pub data Call : Type 0 where
  create : Workflow → Call
  transition : ℕ → Transition → Call
  register_attempt : Attempt → Call
  supersede_attempt : Text → Call
  accept_result : ResultEnvelope → Call
  acquire_lease : Text → Text → Text → ℕ → ℕ → Call
  heartbeat_lease : Text → Text → Text → ℕ → ℕ → Call

unfoldable pub perform : Call → MemoryStore → MemoryStore
perform (Call.create w) s = (Memory.create w s).1
perform (Call.transition now req) s = (Memory.transition now req s).1
perform (Call.register_attempt a) s = (Memory.register_attempt a s).1
perform (Call.supersede_attempt id) s = (Memory.supersede_attempt id s).1
perform (Call.accept_result r) s = (Memory.accept_result r s).1
perform (Call.acquire_lease r o t now e) s = (Memory.acquire_lease r o t now e s).1
perform (Call.heartbeat_lease r o t now e) s = (Memory.heartbeat_lease r o t now e s).1

-- The store after a sequence of calls, in the order in which the mutex admits them.
unfoldable pub run : List Call → MemoryStore → MemoryStore
run [] s = s
run (c ∷ cs) s = run cs (perform c s)
