-- ===== src/Shutdown.antt =====
-- `ROGDestroy` of game_client/game_client/ROG.cpp, over the threads, the objects and the loggers.
--
-- Each part has a state of its own: that a `Thread` is an object of Reference.h too is left out, and so is
-- the end of protobuf.
pub mod Examples
use easygametools.Base.{ℕ, ◌≡◌, Option, none, some, List}
use easygametools.Base.Outcome.{Result, ok, ◌>>=◌}
use easygametools.Memory.{Memory}
use easygametools.Memory.Collector.{collect_remaining}
use easygametools.Memory.Reachable as MemoryReach
use easygametools.Threads.{Threads, collect_remaining_threads}
use easygametools.Threads.Steps as ThreadsSteps
use easygametools.Threads.Collecting.{AreEnded}
use easygametools.Log.{Logging, collect_remaining_loggers}
use easygametools.Log.Lines.{IsOver, close}
use easygametools.Log.Life as LogLife

pub record Program : Type 0 where
  pub threads : Threads
  pub memory : Memory
  pub logging : Logging

-- `ROGDestroy`
unfoldable pub rog_destroy : (ℕ → Threads → Result Threads) → Program → Result Program
rog_destroy waits p = do
  threads ← collect_remaining_threads waits p.threads
  (stats, memory) ← collect_remaining p.memory
  logging ← collect_remaining_loggers p.logging
  ok (record { threads = threads; memory = memory; logging = logging })

-- Nothing is left: no thread runs, and each has been told to end; every object is deleted and rog.log is closed.
pub record IsDown (p p' : Program) : Type 0 where
  pub threads_ended : AreEnded p.threads.running_threads p'.threads
  pub no_objects : (q : ℕ) → p'.memory.cells q ≡ none
  pub log_closed : p'.logging.output ≡ close p.logging.output
  pub log_over : IsOver p'.logging
