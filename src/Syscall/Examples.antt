-- ===== src/Syscall/Examples.antt =====
-- A delegation by `sys_cap_derive`, and the theorems about it at a concrete kernel.
use quantum_os.Prelude.{
  [], ◌∷◌, ◌^◌, ◌%◌, arith, ℕ, ◌≡◌, ◌↔◌, ◌⊎◌, true, false, some, refl, inl, find_first,
}
use quantum_os.Audit.Examples.{empty_ledger}
use quantum_os.Capability.State.{System, success, alloc_slot, claim, resolve, is_expired}
use quantum_os.Capability.Create.{
  cap_init, cap_create, cap_derive, install, derive_from, derive_refusal, clamp_expiration,
}
use quantum_os.Capability.Find.{cap_find_resource, cap_find_id, grants_resource}
use quantum_os.Capability.Invariant.{IsValid}
use quantum_os.Capability.Authority.Grants.{Grants}
use quantum_os.Capability.History.Kept.{image, init-IsValid, create-IsValid}
use quantum_os.Manifest.Table.{
  manifest_check, manifest_grant, manifest_has_room, allows, grant_row, append_row, row_of,
}
use quantum_os.Manifest.Declares.{Declares}
use quantum_os.Manifest.Examples.{fresh}
use quantum_os.Process.{
  Processes, process_magic, running, user, process_get_by_pid, process_is_valid,
  process_get_generation, zero_process, no_processes,
}
use quantum_os.Service.{Service, stopped, service_pid_is_monitored, slot_by_pid}
use quantum_os.Syscall.Gate.{Kernel, authorize}
use quantum_os.Syscall.Authority.{authorize_iff}
use quantum_os.Syscall.Delegate.{Request, sys_cap_derive, hand_over, mint_for, settle, may_receive}
use quantum_os.Syscall.Delegation.{Delegates, sys_cap_derive-Delegates}
use quantum_os.Syscall.Usable.{delegated_usable}
use quantum_os.Syscall.Exit.{
  Exit, ExitLedger, exit_ledger_record, nth_newest, answers, sys_waitpid, waitpid_running,
}
use quantum_os.Syscall.Waiting.{record_all, NoneAnswers, LeftBy, waitpid_finds, waitpid_current}

booted : System
unfolding cap_init
booted = (cap_init (image empty_ledger)).1

-- Process 7 gets an IPC capability to process 8 with READ, WRITE and GRANT.
wired : System
unfolding booted cap_create alloc_slot claim install find_first
wired = (cap_create 5 7 1 8 0x0b 0 true booted).2

wired_made : cap_create 5 7 1 8 0x0b 0 true booted ≡ (success, some 1, wired)
unfolding wired
wired_made = refl

wired-IsValid : IsValid wired
unfolding booted
wired-IsValid = create-IsValid 5 7 1 8 0x0b 0 true booted (init-IsValid empty_ledger) wired_made

abbrev programs : Processes
programs = record no_processes {
  table = λ _. record zero_process {
    magic = process_magic;
    state = running;
    type = user;
    generation = 3;
  };
  slot_generation = λ _. 1;
}

abbrev no_service : Service
no_service = record {
  registered = false;
  monitored = false;
  pid = 0;
  pid_generation = 0;
  state = stopped;
}

-- Process 8 has an empty manifest, and process 7 none.
before : Kernel
unfolding wired
before = record { caps = wired; intents = fresh; processes = programs; services = λ _. no_service }

before-IsValid : IsValid before.caps
unfolding before
before-IsValid = wired-IsValid

-- Process 7 asks that process 8 may read from the queue of process 8, for good.
abbrev reading : Request
reading = record {
  resource_type = 1;
  resource_id = 8;
  permissions = 0x01;
  target_pid = 8;
  expiration = 0;
}

after : Kernel
unfolding before sys_cap_derive hand_over mint_for settle may_receive process_get_by_pid
    process_is_valid service_pid_is_monitored slot_by_pid process_get_generation cap_find_resource
    grants_resource is_expired manifest_check allows cap_find_id manifest_has_room cap_derive
    resolve derive_refusal derive_from clamp_expiration manifest_grant grant_row append_row row_of
    fresh
after = (sys_cap_derive 6 7 (some reading) before).1

after_made : sys_cap_derive 6 7 (some reading) before ≡ (0, after)
unfolding after
after_made = refl

-- Before, process 8 could not read; now it can.
reading_run :
    ((authorize 9 8 1 0x01 8 before).0 ≡ false) × ((authorize 9 8 1 0x01 8 after).0 ≡ true)
unfolding after authorize
reading_run = (refl, refl)

sys_cap_derive-Delegates_example :
    Delegates 6 7 reading before (sys_cap_derive 6 7 (some reading) before)
sys_cap_derive-Delegates_example = sys_cap_derive-Delegates 6 7 reading before

delegated_usable_example :
    (cap_find_resource 6 8 1 0x01 8 before.caps ≡ success)
    ⊎ ((authorize 6 8 1 0x01 8 after).0 ≡ true)
delegated_usable_example =
    delegated_usable 6 7 reading before after before-IsValid (inl refl) after_made

authorize_iff_example : ((authorize 6 7 1 0x02 8 before).0 ≡ true) ↔ (
    ((i : ℕ) × ((before.caps.table i).in_use ≡ true)
      × Grants 6 7 1 8 0x02 (before.caps.table i).cap)
    × Declares 7 1 8 before.intents)
authorize_iff_example = authorize_iff 6 7 1 0x02 8 before before-IsValid

abbrev no_exits : ExitLedger
no_exits = record {
  entries = λ _. record { pid = 0; generation = 0; code = 0; valid = false };
  next = 0;
}

-- Process 9 exits with code 1.
abbrev other_exit : Exit
other_exit = record { pid = 9; generation = 4; code = 1; valid = true }

left_by : LeftBy 3 (process_get_by_pid 8 programs)
unfolding process_get_by_pid process_is_valid
left_by = refl

quiet : NoneAnswers 8 (process_get_by_pid 8 programs) (other_exit ∷ [])
unfolding process_get_by_pid process_is_valid answers
quiet = (refl, tt)

waitpid_finds_example :
    sys_waitpid 8 programs (record_all (other_exit ∷ []) (exit_ledger_record 8 3 42 no_exits))
    ≡ 42 % 2 ^ 8
waitpid_finds_example =
    waitpid_finds 8 3 42 programs (other_exit ∷ []) no_exits (omega arith) (omega arith)
      (omega arith) left_by quiet

holder_made :
    process_get_by_pid 8 programs
    ≡ some (record zero_process {
      magic = process_magic;
      state = running;
      type = user;
      generation = 3;
    })
unfolding process_get_by_pid process_is_valid
holder_made = refl

-- The exit of generation 2, a previous holder, is not reported.
waitpid_run : sys_waitpid 8 programs (exit_ledger_record 8 2 42 no_exits) ≡ waitpid_running
unfolding sys_waitpid exit_ledger_record process_get_by_pid process_is_valid answers find_first
waitpid_run = refl

waitpid_current_example :
    (sys_waitpid 8 programs no_exits ≡ waitpid_running)
    ⊎ ((i : ℕ) × ((nth_newest no_exits i).valid ≡ true)
        × ((nth_newest no_exits i).pid ≡ 8)
        × ((nth_newest no_exits i).generation ≡ 3)
        × (sys_waitpid 8 programs no_exits ≡ (nth_newest no_exits i).code % 2 ^ 8))
waitpid_current_example =
    waitpid_current 8 programs no_exits
      (record zero_process { magic = process_magic; state = running; type = user; generation = 3 })
      (omega arith) holder_made
