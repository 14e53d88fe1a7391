-- ===== src/Lifecycle/Family.antt =====
-- process.c: the children of a process.
use quantum_os.Prelude.{
  ℕ, ◌+◌, ◌-◌, ◌%◌, ◌^◌, not, ◌&&◌, ◌||◌, Option, none, some, ltb, leb, ◌==◌, if◌then◌else◌, update,
  find_first,
}
use quantum_os.Manifest.Table.{max_processes}
use quantum_os.Process.{Processes, Process, ProcessStatus, process_is_valid}
use quantum_os.Process.ProcessStatus.{success, error, invalid_pid, not_found}
use quantum_os.Process.Queue.{store}

abbrev pub with_child : ℕ → Process → Process
with_child child p = record p {
  children = update p.children p.child_count child;
  child_count = (p.child_count + 1) % 2 ^ 32;
}

unfoldable pub process_add_child : ℕ → ℕ → Processes → ProcessStatus × Processes
process_add_child parent child ps =
    if not (process_is_valid parent ps) || not (process_is_valid child ps)
    then (invalid_pid, ps)
    else (if leb max_processes (ps.table parent).child_count
        then (error, ps)
        else (success, store parent (with_child child) ps))

-- The children after the one at `i` each move down a place.
abbrev pub without_child : ℕ → Process → Process
without_child i p = record p {
  children = λ j. if leb i j && ltb j (p.child_count - 1) then p.children (j + 1) else p.children j;
  child_count = p.child_count - 1;
}

abbrev pub remove_at : ℕ → Option ℕ → Processes → ProcessStatus × Processes
remove_at parent none ps = (not_found, ps)
remove_at parent (some i) ps = (success, store parent (without_child i) ps)

unfoldable pub process_remove_child : ℕ → ℕ → Processes → ProcessStatus × Processes
process_remove_child parent child ps =
    let p = ps.table parent in
    if not (process_is_valid parent ps) || not (process_is_valid child ps)
    then (invalid_pid, ps)
    else remove_at parent (find_first p.child_count 0 (λ i. p.children i == child)) ps
