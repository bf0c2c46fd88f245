-- ===== src/Worker/Master/Stops.antt =====
-- `start_work_processes` of process_cycle.c: which processes get a signal in the end.
use mathlib.Core.Path.{subst}
use crawler.Base.{
  ℕ, zero, suc, ◌+◌, ◌<◌, ◌≤◌, ◌≡◌, refl, ap, ◌∙◌, Bool, true, false, Option, none, some, List, [],
  ◌∷◌, ◌++◌, append_assoc, length, length-append, arith,
}
use crawler.Worker.Master.{
  WaitPid, Signal, sigint, sigchld, MasterState, crawler_process_get_status, crawler_signal_handler,
  stopped, no_pids, set_pid, fork_loop, suspend_loop, start_work_processes, kill_loop, pid_at,
}

-- The processes of k workers, from worker i on.
abbrev pub workers : (ℕ → ℕ) → ℕ → ℕ → List (Option ℕ)
workers pid zero i = []
workers pid (suc k) i = some (pid i) ∷ workers pid k (suc i)

abbrev pub has_sigint : List Signal → Bool
has_sigint [] = false
has_sigint (sigint ∷ xs) = true
has_sigint (sigchld ∷ xs) = has_sigint xs

set_pid-append :
    (xs ys : List (Option ℕ)) (p : ℕ) (o : Option ℕ)
    → set_pid (length xs) p (xs ++ (o ∷ ys)) ≡ xs ++ (some p ∷ ys)
unfolding set_pid
set_pid-append [] ys p o = refl
set_pid-append (x ∷ xs) ys p o = ap (λ l. x ∷ l) (set_pid-append xs ys p o)

fork_loop-workers :
    (fork : ℕ → Option ℕ) (pid : ℕ → ℕ) (k : ℕ) (xs : List (Option ℕ))
    → ((j : ℕ) → length xs ≤ j → j < length xs + k → fork j ≡ some (pid j))
    → fork_loop fork k (length xs) (xs ++ no_pids k) ≡ (true, xs ++ workers pid k (length xs))
unfolding fork_loop
fork_loop-workers fork pid zero xs forks = refl
fork_loop-workers fork pid (suc k) xs forks =
    let i = length xs in
    let ys = xs ++ (some (pid i) ∷ []) in
    let long : length ys ≡ suc i = length-append xs (some (pid i) ∷ []) ∙ (omega arith) in
    let next =
      fork_loop-workers fork pid k ys
        (λ j low high. forks j (omega (arith, long)) (omega (arith, long))) in
    let joined : fork_loop fork k (suc i) (xs ++ (some (pid i) ∷ no_pids k))
        ≡ (true, xs ++ (some (pid i) ∷ workers pid k (suc i))) =
      rw
        (
          long,
          append_assoc xs (some (pid i) ∷ []) (no_pids k),
          append_assoc xs (some (pid i) ∷ []) (workers pid k (suc i)),
        )
        at next in
    rw (forks i (omega arith) (omega arith), set_pid-append xs (no_pids k) (pid i) none) joined

pid_at-append : (xs ys : List (Option ℕ)) (y : Option ℕ) → pid_at (length xs) (xs ++ (y ∷ ys)) ≡ y
unfolding pid_at
pid_at-append [] ys y = refl
pid_at-append (x ∷ xs) ys y = pid_at-append xs ys y

kill_loop-append : (xs ys : List (Option ℕ)) → kill_loop (length ys) (length xs) (xs ++ ys) ≡ ys
unfolding kill_loop
kill_loop-append xs [] = refl
kill_loop-append xs (y ∷ ys) =
    let next = kill_loop-append (xs ++ (y ∷ [])) ys in
    let long : length (xs ++ (y ∷ [])) ≡ suc (length xs) =
      length-append xs (y ∷ []) ∙ (omega arith) in
    let rest : kill_loop (length ys) (suc (length xs)) (xs ++ (y ∷ ys)) ≡ ys =
      rw (long, append_assoc xs (y ∷ []) ys) at next in
    rw (pid_at-append xs ys y, rest) refl

suspend_loop-stopped :
    (n : ℕ) (signals : List Signal) (pids : List (Option ℕ)) (reported : List (ℕ × ℕ))
    (waiting : List WaitPid)
    → has_sigint signals ≡ true
    → (m : MasterState) × (suspend_loop n signals (record {
      work_processes_pid = pids;
      crawler_quit = false;
      reported = reported;
      waiting = waiting;
    })
        ≡ stopped (kill_loop n 0 pids) m)
unfolding suspend_loop crawler_signal_handler
suspend_loop-stopped n [] pids reported waiting h = absurd (cc h)
suspend_loop-stopped n (sigint ∷ xs) pids reported waiting h = (_, refl)
suspend_loop-stopped n (sigchld ∷ xs) pids reported waiting h =
    let (seen, left) = crawler_process_get_status pids waiting in
    suspend_loop-stopped n xs pids (reported ++ seen) left h

length-workers : (pid : ℕ → ℕ) (k i : ℕ) → length (workers pid k i) ≡ k
length-workers pid zero i = refl
length-workers pid (suc k) i = ap suc (length-workers pid k (suc i))

-- Where the calls that set up the signals, `malloc` and each `fork` succeed, and SIGINT comes among
-- the signals: whatever signals come before it and whatever `waitpid` finds, the master ends, and
-- its calls of `kill` with SIGINT were given the numbers that `fork` gave it, each once, in order,
-- and no other number.
pub start_work_processes-stopped :
    (fork : ℕ → Option ℕ) (pid : ℕ → ℕ) (n : ℕ) (signals : List Signal) (waiting : List WaitPid)
    → ((j : ℕ) → j < n → fork j ≡ some (pid j))
    → has_sigint signals ≡ true
    → (m : MasterState) × (start_work_processes (true, true, true, true) fork n signals waiting
        ≡ stopped (workers pid n 0) m)
unfolding start_work_processes
start_work_processes-stopped fork pid n signals waiting forks h =
    let all_places : (k : ℕ)
        → length (workers pid n 0) ≡ k
        → kill_loop k 0 (workers pid n 0) ≡ workers pid n 0 =
      λ k e.
        subst (λ j. kill_loop j 0 (workers pid n 0) ≡ workers pid n 0) e
          (kill_loop-append [] (workers pid n 0)) in
    let (m, ends) = suspend_loop-stopped n signals (workers pid n 0) [] waiting h in
    (
      m,
      rw (fork_loop-workers fork pid n [] (λ j low high. forks j (omega arith)))
          (ends ∙ ap (λ l. stopped l m) (all_places n (length-workers pid n 0))),
    )
