-- ===== src/Ipc/Cleanup.antt =====
-- What `ipc_process_cleanup` closes, by who runs it.
use quantum_os.Prelude.{
  ℕ, zero, suc, ◌+◌, ◌≤◌, ◌<◌, ◌≡◌, sym, ◌∙◌, ap, Bool, true, false, not, ◌&&◌, ◌||◌, some, leb,
  ltb, ◌==◌, if◌then◌else◌, find_first-at, inl, inr, arith, Bool-cases, ==_refl,
}
use quantum_os.Ipc.State.{
  Ipc, Port, max_ports, max_processes, is_closed, pid_kernel, find_port_by_id,
}
use quantum_os.Ipc.Ports.{
  ipc_port_destroy, ipc_process_cleanup, cleanup_port, cleanup_ports, close_queue, destroyed,
}

-- Open ports have different numbers.
abbrev pub Distinct : (ℕ → Port) → Type 0
Distinct ports =
    (i j : ℕ)
    → is_closed (ports i).state ≡ false
    → is_closed (ports j).state ≡ false
    → (ports i).port_id ≡ (ports j).port_id
    → i ≡ j

-- An open port of the process.
abbrev pub is_due : ℕ → Port → Bool
is_due pid p = p.owner_id == pid && not (is_closed p.state)

-- Whether the running process may destroy the ports of `pid`.
abbrev pub may_close : ℕ → ℕ → Bool
may_close current pid = pid == current || current == pid_kernel

find_itself :
    (i : ℕ) (s : Ipc)
    → Distinct s.ports
    → i < max_ports
    → is_closed (s.ports i).state ≡ false
    → find_port_by_id (s.ports i).port_id s ≡ some i
unfolding find_port_by_id
find_itself i s d lt live =
    find_first-at max_ports 0
      (λ (k : ℕ). (s.ports k).port_id == (s.ports i).port_id && not (is_closed (s.ports k).state)) i
      (ground (arith, live, ==_refl (s.ports i).port_id)) (omega arith) (omega arith)
      (λ j lo hi. ground (arith, d j i, live))

-- The ports after one round.
abbrev closed_at : ℕ → ℕ → ℕ → (ℕ → Port) → ℕ → Port
closed_at current pid i ports j =
    if may_close current pid && (i == j && is_due pid (ports i))
    then destroyed (ports i)
    else ports j

cleanup_port-ports :
    (current pid i : ℕ) (s : Ipc)
    → Distinct s.ports
    → i < max_ports
    → (j : ℕ) → (cleanup_port current pid i s).ports j ≡ closed_at current pid i s.ports j
unfolding cleanup_port ipc_port_destroy
cleanup_port-ports current pid i s d lt j = elim (Bool-cases (is_due pid (s.ports i))) [
  | inr kept ↦ ground (arith, kept)
  | inl due ↦
      let found = find_itself i s d lt (ground (arith, due)) in
      elim (Bool-cases (may_close current pid)) [
        | inl may ↦ ground (arith, due, found, may)
        | inr refused ↦ ground (arith, due, found, refused)
      ]
]

closed_at-Distinct :
    (current pid i : ℕ) (ports : ℕ → Port)
    → Distinct ports
    → Distinct (closed_at current pid i ports)
closed_at-Distinct current pid i ports d j k a b e = ground (arith, d j k, a, b, e)

-- The ports after `n` rounds from port `i`.
abbrev closed_from : ℕ → ℕ → ℕ → ℕ → (ℕ → Port) → ℕ → Port
closed_from current pid n i ports j =
    if may_close current pid && ((leb i j && ltb j (i + n)) && is_due pid (ports j))
    then destroyed (ports j)
    else ports j

closed_at-from :
    (current pid n i : ℕ) (ports : ℕ → Port) (j : ℕ)
    → closed_from current pid n (i + 1) (closed_at current pid i ports) j
      ≡ closed_from current pid (suc n) i ports j
closed_at-from current pid n i ports j = elim (Bool-cases (may_close current pid)) [
  | inr refused ↦ ground (arith, refused)
  | inl may ↦ elim (Bool-cases (i == j)) [
    | inr there ↦ ground (arith, may, there)
    | inl here ↦ let same : i ≡ j = ground (arith, here) in ground (arith, may, here, ap ports same)
  ]
]

cleanup_ports-ports :
    (current pid n i : ℕ) (s : Ipc)
    → Distinct s.ports
    → i + n ≤ max_ports
    → (j : ℕ) → (cleanup_ports current pid n i s).ports j ≡ closed_from current pid n i s.ports j
unfolding cleanup_ports
cleanup_ports-ports current pid zero i s d le j = ground arith
cleanup_ports-ports current pid (suc n) i s d le j =
    let s' = cleanup_port current pid i s in
    let now = cleanup_port-ports current pid i s d (omega arith) in
    let d' : Distinct s'.ports = λ a b la lb e.
      closed_at-Distinct current pid i s.ports d a b
        (ap (λ p. is_closed p.state) (sym (now a)) ∙ la)
        (ap (λ p. is_closed p.state) (sym (now b)) ∙ lb)
        (ap (λ p. p.port_id) (sym (now a)) ∙ e ∙ ap (λ p. p.port_id) (now b)) in
    cleanup_ports-ports current pid n (i + 1) s' d' (omega arith) j
    ∙ ap
        (λ (p : Port).
          if may_close current pid && ((leb (i + 1) j && ltb j (i + 1 + n)) && is_due pid p)
          then destroyed p
          else p)
        (now j)
    ∙ closed_at-from current pid n i s.ports j

-- With the open ports' numbers distinct, `ipc_process_cleanup` of a process with an open queue closes
-- every open port of the process and leaves every other port as it was, if the kernel or the process
-- itself runs it; run by any other process it leaves every port as it was, those of the dead process
-- included.
pub cleanup_closes :
    (current pid : ℕ) (s : Ipc)
    → Distinct s.ports
    → pid < max_processes
    → s.queue_initialized pid ≡ true
    → (i : ℕ) → i < max_ports
    → (ipc_process_cleanup current pid s).1.ports i ≡ (
        if may_close current pid && is_due pid (s.ports i)
        then destroyed (s.ports i)
        else s.ports i)
unfolding ipc_process_cleanup close_queue
cleanup_closes current pid s d lt on i small =
    let after = cleanup_ports-ports current pid max_ports 0 (close_queue pid s) d (omega arith) i in
    ground (arith, lt, on, after)
