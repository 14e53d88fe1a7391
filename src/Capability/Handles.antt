-- ===== src/Capability/Handles.antt =====
-- Handles and slots: `resolve` finds a slot exactly by the handle that the slot carries.
use quantum_os.Prelude.{ℕ, ◌^◌, ◌<◌, ◌≡◌, ◌≢◌, true, some, none, arith}
use quantum_os.Capability.State.{System, max_capabilities, resolve, index_of, generation_of}
use quantum_os.Capability.Invariant.Tree.{IsTree}

pub resolve-some :
    (s : System) (id p : ℕ)
    → resolve s id ≡ some p
    → (p < max_capabilities)
      × (p ≡ index_of id)
      × ((s.table p).in_use ≡ true)
      × ((s.table p).generation ≡ generation_of id)
      × (id ≢ 0)
unfolding resolve
resolve-some s id p e = ground arith

-- A handle that resolves is the one that the slot carries.
pub resolve-cap_id :
    (s : System) (id p : ℕ)
    → IsTree s.table
    → id < 2 ^ 32
    → resolve s id ≡ some p
    → (s.table p).cap_id ≡ id
resolve-cap_id s id p v small e =
    let (lt, ix, live, gen, nz) = resolve-some s id p e in
    omega (arith, v.ids p live, lt, ix, gen, nz)

-- The handle of a slot in use resolves to the slot.
pub resolve-live :
    (s : System) (p : ℕ)
    → IsTree s.table
    → (s.table p).in_use ≡ true
    → resolve s (s.table p).cap_id ≡ some p
unfolding resolve
resolve-live s p v live =
    let small = v.bounded p live in
    let gen = v.gens p in
    let id = v.ids p live in
    let ix : index_of (s.table p).cap_id ≡ p = omega arith in
    let g : generation_of (s.table p).cap_id ≡ (s.table p).generation = omega arith in
    ground (arith, ix, g)

-- CAP_ID_INVALID resolves to nothing.
pub resolve-invalid : (s : System) (id : ℕ) → id ≡ 0 → resolve s id ≡ none
unfolding resolve
resolve-invalid s id e = ground arith
