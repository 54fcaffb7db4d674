-- ===== src/Worker/Life.antt =====
-- internal/rag/worker.go: Start, Wait and Ready of the worker, and the end of its loop.
use dong_rag.Base.{
  ℕ, ◌+◌, ◌-◌, ◌<◌, ◌≡◌, refl, inl, inr, Bool, true, false, Option, none, some, arith, ltb,
  if◌then◌else◌, GoError, Result, ok, err, Result-cases,
}
use dong_rag.Store.Tables.{Call}
use dong_rag.Store.Jobs.{Table, recover_expired_ingestion_jobs}

-- `startOnce` has run, `running`, the goroutines in `loop`, and how often `done` has been closed.
pub record Life : Type 0 where
  pub started : Bool
  pub running : Bool
  pub loops : ℕ
  pub closed : ℕ

-- NewIngestionWorker
abbrev pub unstarted : Life
unstarted = record { started = false; running = false; loops = 0; closed = 0 }

pub data StartError : Type 0 where
  not_configured : StartError
  recover_failed : GoError → StartError
  already_started : StartError

-- `w.running.Store(true)` and `w.startOnce.Do`
unfoldable pub start_once : Life → Option StartError × Life
start_once s =
    if s.started
    then (some already_started, record s { running = true })
    else (none, record s { started = true; running = true; loops = s.loops + 1 })

unfoldable pub start_after : Result ℕ → Life → Option StartError × Life
unfolding start_once
start_after (err e) s = (some (recover_failed e), s)
start_after (ok n) s = start_once s

-- `configured` is `w.Store != nil && w.Service != nil`.
unfoldable pub start_worker : Bool → Call → Life → Table → (Option StartError × Life) × Table
unfolding recover_expired_ingestion_jobs start_after
start_worker false c s t = ((some not_configured, s), t)
start_worker true c s t =
    let (recovered, t') = recover_expired_ingestion_jobs c t in (start_after recovered s, t')

-- The deferred function of a loop that returns.
unfoldable pub end_loop : Life → Life
end_loop s = record s { running = false; loops = s.loops - 1; closed = s.closed + 1 }

-- `Wait` returns.
abbrev pub wait_returns : Life → Bool
wait_returns s = ltb 0 s.closed

abbrev pub ready : Life → Bool
ready s = s.running

-- What can happen to a worker: a call of Start, or the return of a loop.
pub data Lives : Life → Type 0 where
  made : Lives unstarted
  starts :
      {s : Life}
      → Lives s
      → (configured : Bool) (c : Call) (t : Table) → Lives (start_worker configured c s t).0.1
  ends : {s : Life} → Lives s → 0 < s.loops → Lives (end_loop s)

-- What holds of a worker at any time.
pub record IsAlive (s : Life) : Type 0 where
  -- At most one loop runs, and `done` is closed once at most, when it has ended.
  pub single : s.loops + s.closed ≡ (if s.started then 1 else 0)
  -- A worker with a loop is ready, and one that has not been started is not.
  pub is_ready : 0 < s.loops → ready s ≡ true
  pub not_ready : s.started ≡ false → ready s ≡ false

start_once-IsAlive : (s : Life) → IsAlive s → IsAlive (start_once s).1
unfolding start_once
start_once-IsAlive s h = ground (arith, h)

start_worker-IsAlive :
    (configured : Bool) (c : Call) (s : Life) (t : Table)
    → IsAlive s
    → IsAlive (start_worker configured c s t).0.1
unfolding start_worker start_after
start_worker-IsAlive false c s t h = h
start_worker-IsAlive true c s t h = elim (Result-cases (recover_expired_ingestion_jobs c t).0) [
  | inl (n, e) ↦ rw e (start_once-IsAlive s h)
  | inr (x, e) ↦ rw e h
]

end_loop-IsAlive : (s : Life) → IsAlive s → 0 < s.loops → IsAlive (end_loop s)
unfolding end_loop
end_loop-IsAlive s h l = ground (arith, h, l)

-- However often Start is called, also once the loop has ended: at most one loop runs, the channel
-- of Wait is closed once at most and only when the loop has ended, a worker whose loop runs is
-- ready, and one that has not been started is not.
pub Lives-IsAlive : {s : Life} → Lives s → IsAlive s
Lives-IsAlive made = ground arith
Lives-IsAlive (starts {s} l configured c t) =
    start_worker-IsAlive configured c s t (Lives-IsAlive l)
Lives-IsAlive (ends {s} l h) = end_loop-IsAlive s (Lives-IsAlive l) h

again :
    (s : Life) (c : Call) (t : Table)
    → c.fault ≡ none
    → s.started ≡ true
    → s.loops ≡ 0
    → ((start_worker true c s t).0.0 ≡ some already_started)
      × (ready (start_worker true c s t).0.1 ≡ true)
      × ((start_worker true c s t).0.1.loops ≡ 0)
unfolding start_worker start_after start_once recover_expired_ingestion_jobs
again s c t o w h = rw (o, w) (refl, refl, h)

-- A call of Start after the loop has ended, in which the recovery does not fail, returns the error
-- of a worker that has been started, and leaves the worker ready without a loop.
pub start_after_end :
    {s : Life} (c : Call) (t : Table)
    → Lives s
    → wait_returns s ≡ true
    → c.fault ≡ none
    → ((start_worker true c s t).0.0 ≡ some already_started)
      × (ready (start_worker true c s t).0.1 ≡ true)
      × ((start_worker true c s t).0.1.loops ≡ 0)
start_after_end {s} c t l w o =
    let h = Lives-IsAlive l in
    let was : s.started ≡ true = ground (arith, h.single, w) in
    let over : s.loops ≡ 0 = ground (arith, h.single, w, was) in again s c t o was over
