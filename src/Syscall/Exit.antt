-- ===== src/Syscall/Exit.antt =====
-- syscall.c: the ring of exit codes, and `sys_waitpid`, which reads it.
use quantum_os.Prelude.{
  ℕ, ◌+◌, ◌-◌, ◌%◌, ◌^◌, Bool, true, ◌&&◌, Option, none, some, leb, ◌==◌, if◌then◌else◌, update,
  find_first,
}
use quantum_os.Manifest.Table.{max_processes}
use quantum_os.Process.{Process, Processes, process_get_by_pid}
use quantum_os.Syscall.Delegate.{einval}

-- EXIT_LEDGER_SIZE, WAITPID_RUNNING and SYSCALL_ENOENT
abbrev pub exit_ledger_size : ℕ
exit_ledger_size = 16

abbrev pub waitpid_running : ℕ
waitpid_running = 256

abbrev pub enoent : ℕ
enoent = 2 ^ 64 - 6

-- One element of `exit_ledger`. The code is its 32 bits.
pub record Exit : Type 0 where
  pub pid : ℕ
  pub generation : ℕ
  pub code : ℕ
  pub valid : Bool

-- `exit_ledger` and `exit_ledger_next`
pub record ExitLedger : Type 0 where
  pub entries : ℕ → Exit
  pub next : ℕ

unfoldable pub exit_ledger_record : ℕ → ℕ → ℕ → ExitLedger → ExitLedger
exit_ledger_record pid generation code l = record {
  entries =
      update l.entries l.next
        (record { pid = pid; generation = generation; code = code; valid = true });
  next = (l.next + 1) % exit_ledger_size;
}

-- The entry `i` places before the newest.
abbrev pub nth_newest : ExitLedger → ℕ → Exit
nth_newest l i = l.entries ((l.next + exit_ledger_size - 1 - i) % exit_ledger_size)

-- Whether an entry answers for the pid: of its live owner's generation, or of any once it is free.
unfoldable pub answers : ℕ → Option Process → Exit → Bool
answers target none e = e.valid && e.pid == target
answers target (some p) e = e.valid && (e.pid == target && e.generation == p.generation)

-- What `sys_waitpid` returns when no entry answers.
abbrev pub unanswered : Option Process → ℕ
unanswered none = enoent
unanswered (some p) = waitpid_running

unfoldable pub sys_waitpid : ℕ → Processes → ExitLedger → ℕ
sys_waitpid target ps l =
    let p = process_get_by_pid target ps in
    if leb max_processes target
    then einval
    else (elim (find_first exit_ledger_size 0 (λ i. answers target p (nth_newest l i))) [
      | none ↦ unanswered p
      | some i ↦ (nth_newest l i).code % 2 ^ 8
    ])
