-- ===== src/Sync/Tests.antt =====
-- The theorems on the primitives at concrete runs.
use chiya.Prelude.{[], ◌∷◌}
use chiya.Sync.SeqLock
use chiya.Sync.SeqLock.{
  SeqLockWriteGuard, SeqLock, System, Event, try, drop_at, Stamps, write, optimistic_read,
  run-Stamps, write-some,
}

run-Stamps_example :
    Stamps (SeqLock.run (try ∷ try ∷ drop_at 0 ∷ []) (record { lock = SeqLock.new; guards = [] }))
run-Stamps_example = run-Stamps (try ∷ try ∷ drop_at 0 ∷ [])
