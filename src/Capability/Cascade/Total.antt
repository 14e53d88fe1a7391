-- ===== src/Capability/Cascade/Total.antt =====
-- The three loops of capability.c return, with the fuel that they are given.
use quantum_os.Prelude.{ℕ, zero, suc, ◌+◌, ◌<◌, ◌≡◌, Bool, true, some, arith}
use quantum_os.Audit.Kind
use quantum_os.Capability.State.{System, Slot, max_capabilities}
use quantum_os.Capability.Revoke.{
  sweep, is_child_of, is_owned_by, is_ipc_to, revoke_children_of, cascade_fuel,
  cap_revoke_all_for_process, cap_revoke_ipc_targets,
}
use quantum_os.Capability.Invariant.{IsValid}
use quantum_os.Capability.Invariant.Count.{used-le}
use quantum_os.Capability.Cascade.Below.{Ranked, is_child_of-in_use, is_child_of-parent}
use quantum_os.Capability.Cascade.Sweep.{Swept}
use quantum_os.Capability.Cascade.Loop.{sweep-Swept}

-- Each level of derivation uses one unit of fuel, and ranks rise along it.
children-Ranked :
    (rank : ℕ → ℕ) (bound now kind fuel parent : ℕ) (s : System)
    → IsValid s
    → Ranked rank bound s.table
    → 0 < fuel
    → ((j : ℕ) → is_child_of parent (s.table j) ≡ true → bound < rank j + fuel)
    → (s' : System) × (revoke_children_of fuel now kind parent s ≡ some s')
      × Swept (is_child_of parent) s s'
unfolding revoke_children_of
children-Ranked rank bound now kind zero parent s v r pos enough = absurd (omega arith)
children-Ranked rank bound now kind (suc fuel) parent s v r pos enough =
    sweep-Swept (is_child_of parent) (is_child_of-in_use parent) rank bound
      (λ i. bound < rank i + suc fuel) now kind
      (λ child s'. revoke_children_of fuel now kind child s')
      (λ t vt rt i live q.
        children-Ranked rank bound now kind fuel (t.table i).cap_id t vt rt
          (omega (arith, rt.ranked i live))
          (λ j c. omega (
            arith,
            rt.older j i (is_child_of-in_use _ (t.table j) c) live
                (is_child_of-parent _ (t.table j) c),
          )))
      s r enough v

pub tree_Ranked : {s : System} (v : IsValid s) → Ranked v.tree.rank max_capabilities s.table
tree_Ranked {s} v = record {
  ranked = λ i u. omega (arith, v.tree.ranked i u, used-le max_capabilities s.table);
  older = v.tree.older;
}

-- In a valid state the cascade returns, whatever handle it starts from.
pub revoke_children_of-Swept :
    (now kind parent : ℕ) (s : System)
    → IsValid s
    → (s' : System) × (revoke_children_of cascade_fuel now kind parent s ≡ some s')
      × Swept (is_child_of parent) s s'
revoke_children_of-Swept now kind parent s v =
    children-Ranked v.tree.rank max_capabilities now kind cascade_fuel parent s v (tree_Ranked v)
      (omega arith) (λ j c. omega arith)

sweep_all :
    (match : Slot → Bool) (uses : (slot : Slot) → match slot ≡ true → slot.in_use ≡ true)
    (now kind : ℕ) (s : System)
    → IsValid s
    → (s' : System) × (sweep match
          (λ child t. revoke_children_of cascade_fuel now kind child t)
          now
          kind
          max_capabilities
          0
          s
        ≡ some s')
      × Swept match s s'
sweep_all match uses now kind s v =
    sweep-Swept match uses v.tree.rank max_capabilities (λ _. Unit {0}) now kind
      (λ child t. revoke_children_of cascade_fuel now kind child t)
      (λ t vt rt i live q. revoke_children_of-Swept now kind (t.table i).cap_id t vt) s
      (tree_Ranked v) (λ j m. tt) v

pub revoke_all-Swept :
    (now pid : ℕ) (s : System)
    → IsValid s
    → (s' : System) × (cap_revoke_all_for_process now pid s ≡ some s')
      × Swept (is_owned_by pid) s s'
unfolding cap_revoke_all_for_process is_owned_by
revoke_all-Swept now pid s v =
    sweep_all (is_owned_by pid) (λ slot h. ground arith) now Kind.reap s v

pub revoke_ipc_targets-Swept :
    (now pid : ℕ) (s : System)
    → IsValid s
    → (s' : System) × (cap_revoke_ipc_targets now pid s ≡ some s') × Swept (is_ipc_to pid) s s'
unfolding cap_revoke_ipc_targets is_ipc_to
revoke_ipc_targets-Swept now pid s v =
    sweep_all (is_ipc_to pid) (λ slot h. ground arith) now Kind.unlink s v
