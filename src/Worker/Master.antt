-- ===== src/Worker/Master.antt =====
-- process_cycle.c: `start_work_processes` as the master runs it, and its signals. `fork`, the signals
-- that `sigsuspend` waits for and what `waitpid` finds are arguments; a worker does not come back
-- from `work_process_cycle`. What is only printed is left out.
pub mod Stops
use crawler.Base.{
  ℕ, zero, suc, Bool, true, false, ◌&&◌, Option, none, some, List, [], ◌∷◌, ◌++◌, ◌==◌,
  if◌then◌else◌,
}

-- 0; -1 with EINTR, with ECHILD or with another error; or the process that has exited.
pub data WaitPid : Type 0 where
  none_ready wait_interrupted no_child wait_error : WaitPid
  exited : ℕ → WaitPid

abbrev pub is_pid : ℕ → Option ℕ → Bool
is_pid pid none = false
is_pid pid (some p) = p == pid

-- The loop over `work_processes_pid`: the place of a process, or the number of places.
unfoldable pub index_of : ℕ → List (Option ℕ) → ℕ
index_of pid [] = 0
index_of pid (p ∷ pids) = if is_pid pid p then 0 else suc (index_of pid pids)

-- The processes that are reported, with their places, and what `waitpid` has still to find.
unfoldable pub crawler_process_get_status :
    List (Option ℕ) → List WaitPid → List (ℕ × ℕ) × List WaitPid
crawler_process_get_status pids [] = ([], [])
crawler_process_get_status pids (wait_interrupted ∷ w) = crawler_process_get_status pids w
crawler_process_get_status pids (exited pid ∷ w) =
    let (seen, left) = crawler_process_get_status pids w in
    (((index_of pid pids, pid) ∷ seen), left)
crawler_process_get_status pids (_ ∷ w) = ([], w)

pub data Signal : Type 0 where
  sigint sigchld : Signal

-- `work_processes_pid`, in which `none` is -1, `crawler_quit`, and the processes that were reported.
pub record MasterState : Type 0 where
  pub work_processes_pid : List (Option ℕ)
  pub crawler_quit : Bool
  pub reported : List (ℕ × ℕ)
  pub waiting : List WaitPid

unfoldable pub crawler_signal_handler : Signal → MasterState → MasterState
crawler_signal_handler sigint m = record m { crawler_quit = true }
crawler_signal_handler sigchld m =
    let (seen, left) = crawler_process_get_status m.work_processes_pid m.waiting in
    record m { reported = m.reported ++ seen; waiting = left }

-- -1 before the first `fork`; -1 where a `fork` fails, with the array; 0, with the arguments of
-- `kill`; or the master waits for a signal.
pub data MasterEnd : Type 0 where
  not_started : MasterEnd
  fork_failed : List (Option ℕ) → MasterEnd
  stopped : List (Option ℕ) → MasterState → MasterEnd
  suspended : MasterState → MasterEnd

abbrev pub no_pids : ℕ → List (Option ℕ)
no_pids zero = []
no_pids (suc n) = none ∷ no_pids n

unfoldable pub set_pid : ℕ → ℕ → List (Option ℕ) → List (Option ℕ)
set_pid i pid [] = []
set_pid zero pid (p ∷ pids) = some pid ∷ pids
set_pid (suc i) pid (p ∷ pids) = p ∷ set_pid i pid pids

-- The loop that forks, from place i on; whether each call succeeded.
abbrev pub on_fork :
    (List (Option ℕ) → Bool × List (Option ℕ))
    → ℕ
    → List (Option ℕ)
    → Option ℕ
    → Bool × List (Option ℕ)
on_fork rest i pids none = (false, pids)
on_fork rest i pids (some pid) = rest (set_pid i pid pids)

unfoldable pub fork_loop : (ℕ → Option ℕ) → ℕ → ℕ → List (Option ℕ) → Bool × List (Option ℕ)
fork_loop fork zero i pids = (true, pids)
fork_loop fork (suc k) i pids = on_fork (λ pids'. fork_loop fork k (suc i) pids') i pids (fork i)

-- `work_processes_pid[i]`, for a place in the array.
unfoldable pub pid_at : ℕ → List (Option ℕ) → Option ℕ
pid_at i [] = none
pid_at zero (p ∷ pids) = p
pid_at (suc i) (p ∷ pids) = pid_at i pids

-- The loop that calls `kill`, for k places from place i on: the numbers that are given to it.
unfoldable pub kill_loop : ℕ → ℕ → List (Option ℕ) → List (Option ℕ)
kill_loop zero i pids = []
kill_loop (suc k) i pids = pid_at i pids ∷ kill_loop k (suc i) pids

-- The loop around `sigsuspend`.
unfoldable pub suspend_loop : ℕ → List Signal → MasterState → MasterEnd
suspend_loop work_processes [] m = suspended m
suspend_loop work_processes (x ∷ xs) m =
    let m' = crawler_signal_handler x m in
    let rest = suspend_loop work_processes xs m' in
    if m'.crawler_quit then stopped (kill_loop work_processes 0 m'.work_processes_pid) m' else rest

abbrev pub after_forks : ℕ → List Signal → List WaitPid → Bool × List (Option ℕ) → MasterEnd
after_forks n signals waiting (false, pids) = fork_failed pids
after_forks n signals waiting (true, pids) =
    suspend_loop n signals
      (record { work_processes_pid = pids; crawler_quit = false; reported = []; waiting = waiting })

-- The first argument says whether `sigprocmask`, the two calls of `sigaction` and `malloc` succeed.
unfoldable pub start_work_processes :
    Bool × Bool × Bool × Bool → (ℕ → Option ℕ) → ℕ → List Signal → List WaitPid → MasterEnd
start_work_processes (blocked, on_int, on_chld, memory) fork work_processes signals waiting =
    if blocked && on_int && on_chld && memory
    then after_forks work_processes signals waiting
        (fork_loop fork work_processes 0 (no_pids work_processes))
    else not_started
