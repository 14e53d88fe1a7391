-- ===== src/Capability/Cascade/Release.antt =====
-- One slot released.
use quantum_os.Prelude.{ℕ, ◌≡◌, ◌≢◌, true, refl, update, arith}
use quantum_os.Capability.State.{System, freed, max_capabilities}
use quantum_os.Capability.Revoke.{release}
use quantum_os.Capability.Invariant.{IsValid}
use quantum_os.Capability.Invariant.Tree.{free-IsTree}
use quantum_os.Capability.Invariant.Count.{used-update, used-pos, used-le}

module _ (now kind owner i : ℕ) (s : System) where
  pub table-release : (release now kind owner i s).table ≡ update s.table i (freed (s.table i))
  unfolding release
  table-release = refl

  pub hwm-release : (release now kind owner i s).hwm ≡ s.hwm
  unfolding release
  hwm-release = refl

  pub initialized-release : (release now kind owner i s).initialized ≡ s.initialized
  unfolding release
  initialized-release = refl

-- To release a slot without children keeps the invariant; the count of live slots does not wrap.
pub release-IsValid :
    (now kind owner i : ℕ) (s : System)
    → IsValid s
    → (s.table i).in_use ≡ true
    → ((j : ℕ) → (s.table j).in_use ≡ true → (s.table j).parent_cap ≢ (s.table i).cap_id)
    → IsValid (release now kind owner i s)
unfolding release
release-IsValid now kind owner i s v live leaf = record {
  tree = free-IsTree v.tree i live leaf;
  mark = v.mark;
  below = λ j u. ground (arith, v.below j);
  active = ground (
    arith,
    v.active,
    used-update max_capabilities s.table i (freed (s.table i)) (v.tree.bounded i live),
    used-pos max_capabilities s.table i (v.tree.bounded i live) live,
    used-le max_capabilities s.table,
  );
}
