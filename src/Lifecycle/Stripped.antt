-- ===== src/Lifecycle/Stripped.antt =====
-- What the two sweeps of the capability table in `process_destroy` leave together, and what
-- its cleanup in ipc.c leaves: the message queue shut, the channels as they were.
use quantum_os.Prelude.{
  ℕ, zero, suc, ◌+◌, ◌<◌, Bool, true, false, not, ◌&&◌, ◌==◌, leb, some, ◌≡◌, refl, ◌⊎◌, inl, inr,
  arith, ap, ◌∙◌, Bool-cases, update_self,
}
use quantum_os.Capability.State.{System, Slot, freed}
use quantum_os.Capability.Invariant.{IsValid}
use quantum_os.Capability.Revoke.{is_owned_by, is_ipc_to}
use quantum_os.Capability.Reap.{revoke_all_exactly, revoke_ipc_targets_exactly}
use quantum_os.Capability.Cascade.Exact.{RevokesExactly}
use quantum_os.Ipc.State.{Ipc, max_processes, max_ports, is_closed, pid_kernel}
use quantum_os.Ipc.Cleanup.{Distinct, is_due, cleanup_closes}
use quantum_os.Ipc.Ports.{
  ipc_port_destroy, cleanup_port, cleanup_ports, close_queue, ipc_process_cleanup,
}
use quantum_os.Lifecycle.Destroy.{strip_authority}

-- No capability is owned by `pid` or is an IPC capability for it, and the others are kept or freed.
pub record IsStripped (pid : ℕ) (s s' : System) : Type 0 where
  pub valid : IsValid s'
  pub none_owned : (j : ℕ) → is_owned_by pid (s'.table j) ≡ false
  pub none_inbound : (j : ℕ) → is_ipc_to pid (s'.table j) ≡ false
  pub on : s'.initialized ≡ s.initialized
  pub kept : (j : ℕ) → (s'.table j ≡ s.table j) ⊎ ((s'.table j).in_use ≡ false)

freed_owned : (pid : ℕ) (slot : Slot) → is_owned_by pid (freed slot) ≡ false
unfolding is_owned_by
freed_owned pid slot = refl

still_unowned :
    (pid : ℕ) (a b : Slot)
    → (b ≡ freed a) ⊎ (b ≡ a)
    → is_owned_by pid a ≡ false
    → is_owned_by pid b ≡ false
still_unowned pid a b (inl e) h = ap (is_owned_by pid) e ∙ freed_owned pid a
still_unowned pid a b (inr e) h = ap (is_owned_by pid) e ∙ h

module _ {match : Slot → Bool} {s s' : System} (x : RevokesExactly match s s') (j : ℕ) where
  freed_or_same : (s'.table j ≡ freed (s.table j)) ⊎ (s'.table j ≡ s.table j)
  freed_or_same = elim (x.slots j) [ inl (_, gone) ↦ inl gone | inr (_, same) ↦ inr same ]

both_kept :
    (a b c : Slot)
    → (b ≡ freed a) ⊎ (b ≡ a)
    → (c ≡ freed b) ⊎ (c ≡ b)
    → (c ≡ a) ⊎ (c.in_use ≡ false)
both_kept a b c first (inl gone) = inr (ap (λ x. x.in_use) gone)
both_kept a b c (inl gone) (inr same) = inr (ap (λ x. x.in_use) (same ∙ gone))
both_kept a b c (inr same) (inr same') = inl (same' ∙ same)

-- The two sweeps return, and strip the process.
pub strip_authority-IsStripped :
    (now pid : ℕ) (s : System)
    → IsValid s
    → (s' : System) × (strip_authority now pid s ≡ some s') × IsStripped pid s s'
unfolding strip_authority
strip_authority-IsStripped now pid s v =
    let (mid, first, x) = revoke_all_exactly now pid s v in
    let (s', second, y) = revoke_ipc_targets_exactly now pid mid x.valid in
    (
      s',
      rw first second,
      record {
        valid = y.valid;
        none_owned =
            λ j. still_unowned pid (mid.table j) (s'.table j) (freed_or_same y j) (x.none_left j);
        none_inbound = y.none_left;
        on = y.initialized_kept ∙ x.initialized_kept;
        kept = λ j.
            both_kept (s.table j) (mid.table j) (s'.table j) (freed_or_same x j)
              (freed_or_same y j);
      },
    )

-- A reading of the statics that the end of a port does not change.
module _ {ℓ} {X : Type ℓ} (read : Ipc → X)
    (keeps : (c id : ℕ) (s : Ipc) → read (ipc_port_destroy c id s).1 ≡ read s) where
  cleanup_port-reads : (current pid i : ℕ) (s : Ipc) → read (cleanup_port current pid i s) ≡ read s
  unfolding cleanup_port
  cleanup_port-reads current pid i s =
      elim (Bool-cases ((s.ports i).owner_id == pid && not (is_closed (s.ports i).state))) [
        | inl due ↦ rw due (keeps current (s.ports i).port_id s)
        | inr kept ↦ rw kept refl
      ]

  cleanup_ports-reads :
      (current pid n i : ℕ) (s : Ipc) → read (cleanup_ports current pid n i s) ≡ read s
  unfolding cleanup_ports
  cleanup_ports-reads current pid zero i s = refl
  cleanup_ports-reads current pid (suc n) i s =
      cleanup_ports-reads current pid n (i + 1) (cleanup_port current pid i s)
      ∙ cleanup_port-reads current pid i s

port_destroy-queues :
    (current id : ℕ) (s : Ipc)
    → (ipc_port_destroy current id s).1.queue_initialized ≡ s.queue_initialized
unfolding ipc_port_destroy
port_destroy-queues current id s = ground arith

port_destroy-channels :
    (current id : ℕ) (s : Ipc) → (ipc_port_destroy current id s).1.channels ≡ s.channels
unfolding ipc_port_destroy
port_destroy-channels current id s = ground arith

-- The cleanup does not look at channels.
pub cleanup-channels :
    (current pid : ℕ) (s : Ipc) → (ipc_process_cleanup current pid s).1.channels ≡ s.channels
unfolding ipc_process_cleanup close_queue
cleanup-channels current pid s =
    let swept =
      cleanup_ports-reads (λ t. t.channels) port_destroy-channels current pid max_ports 0
        (close_queue pid s) in
    elim (Bool-cases (leb max_processes pid)) [
      | inl large ↦ rw large refl
      | inr small ↦ elim (Bool-cases (s.queue_initialized pid)) [
        | inr off ↦ rw (small, off) refl
        | inl on ↦ rw (small, on) swept
      ]
    ]

-- Where the kernel runs the cleanup, no port of a process with an open queue stays open.
pub cleanup-closes :
    (pid : ℕ) (s : Ipc)
    → Distinct s.ports
    → pid < max_processes
    → s.queue_initialized pid ≡ true
    → (i : ℕ) → i < max_ports
    → is_due pid ((ipc_process_cleanup pid_kernel pid s).1.ports i) ≡ false
cleanup-closes pid s d lt on i small =
    ap (is_due pid) (cleanup_closes pid_kernel pid s d lt on i small)
    ∙ ground (arith, Bool-cases (is_due pid (s.ports i)))

-- Whether its queue was open or not, it is shut.
pub cleanup-shuts :
    (current pid : ℕ) (s : Ipc)
    → pid < max_processes
    → (ipc_process_cleanup current pid s).1.queue_initialized pid ≡ false
unfolding ipc_process_cleanup close_queue
cleanup-shuts current pid s below =
    let swept =
      ap (λ (f : ℕ → Bool). f pid)
        (cleanup_ports-reads (λ t. t.queue_initialized) port_destroy-queues current pid max_ports 0
          (close_queue pid s))
      ∙ update_self s.queue_initialized pid false in
    elim (Bool-cases (s.queue_initialized pid)) [
      | inr off ↦ ground (arith, below, off)
      | inl on ↦ ground (arith, below, on, swept)
    ]
