-- ===== src/Qpu/Calls.antt =====
-- `sys_qpu` of syscall.c: the system call in front of the broker.
use quantum_os.Prelude.{
  ℕ, ◌%◌, ◌^◌, ◌≡◌, ◌⊎◌, refl, sym, ap, ◌∙◌, subst, Bool, true, false, Option, none, some, ltb,
  ◌==◌, ◌&&◌, if◌then◌else◌, arith, inl, inr, Bool-cases,
}
use quantum_os.Capability.Invariant.{IsValid}
use quantum_os.Capability.Authority.Grants.{Grants}
use quantum_os.Capability.Authority.Lookup.{cap_find_resource-cases}
use quantum_os.Manifest.Table.{allows, manifest_check}
use quantum_os.Manifest.Declares.{Declares}
use quantum_os.Manifest.Quota.{device_id_qpu}
use quantum_os.Syscall.Gate.{Kernel, authorize}
use quantum_os.Syscall.Authority.{authorize_iff}
use quantum_os.Syscall.Delegate.{einval, efault, eperm, cap_write}
use quantum_os.Audit.Ring.{resource_device, cap_execute}
use quantum_os.Qpu.Jobs.{Broker, Submission, Completion, Fetched, Polled}
use quantum_os.Qpu.Broker.{qpu_submit, qpu_fetch, qpu_complete, qpu_poll}

-- A call with its arguments. A structure that cannot be read in is `none`; the flag of the two that
-- write says whether the output pointer is writable.
pub data Request : Type 0 where
  submit : Option Submission → Request
  fetch : Bool → Request
  complete : Option Completion → Request
  poll : ℕ → Bool → Request
  unknown : Request

-- What is copied out to the caller.
pub data Output : Type 0 where
  nothing : Output
  fetched : Fetched → Output
  polled : Polled → Output

abbrev pub Outcome : Type 0
Outcome = ℕ × Output × Broker × Kernel

abbrev silent : ℕ × Broker × Kernel → Outcome
silent (r, b, k) = (r, nothing, b, k)

abbrev show_job : Kernel → ℕ × Option Fetched × Broker → Outcome
show_job k (r, none, b) = (r, nothing, b, k)
show_job k (r, some out, b) = (r, if r == 0 then nothing else fetched out, b, k)

-- A poll's return is above 0 as a signed number.
abbrev show_result : Kernel → ℕ × Option Polled × Broker → Outcome
show_result k (r, none, b) = (r, nothing, b, k)
show_result k (r, some out, b) =
    (r, if ltb 0 r && ltb r (2 ^ 63) then polled out else nothing, b, k)

-- Behind `authorize`.
unfoldable pub serve : ℕ → ℕ → Request → Broker → Kernel → Outcome
serve now pid (submit none) b k = (efault, nothing, b, k)
serve now pid (submit (some req)) b k = silent (qpu_submit now pid req b k)
serve now pid (fetch false) b k = (efault, nothing, b, k)
serve now pid (fetch true) b k = show_job k (qpu_fetch pid k.processes b)
serve now pid (complete none) b k = (efault, nothing, b, k)
serve now pid (complete (some req)) b k = silent (qpu_complete now pid req b k)
serve now pid (poll arg false) b k = (efault, nothing, b, k)
serve now pid (poll arg true) b k = show_result k (qpu_poll pid (arg % 2 ^ 32) k.processes b)
serve now pid unknown b k = (einval, nothing, b, k)

-- The right that each call asks for: WRITE, or EXECUTE.
abbrev pub right : Request → Option ℕ
right (submit req) = some 2
right (fetch ok) = some 4
right (complete req) = some 4
right (poll id ok) = some 2
right unknown = none

abbrev guarded : ℕ → ℕ → Option ℕ → Request → Broker → Kernel → Outcome
guarded now pid none q b k = (einval, nothing, b, k)
guarded now pid (some perm) q b k =
    let (ok, k') = authorize now pid resource_device perm device_id_qpu k in
    if ok then serve now pid q b k' else (eperm, nothing, b, k')

unfoldable pub sys_qpu : ℕ → ℕ → Request → Broker → Kernel → Outcome
sys_qpu now pid q b k = guarded now pid (right q) q b k

-- Some slot of the capability table grants the right on the QPU, and the manifest declares it.
abbrev pub MayUse : ℕ → ℕ → ℕ → Kernel → Type 0
MayUse now pid perm k =
    ((i : ℕ) × ((k.caps.table i).in_use ≡ true)
      × Grants now pid resource_device device_id_qpu perm (k.caps.table i).cap)
    × Declares pid resource_device device_id_qpu k.intents

-- What each call takes: WRITE to submit and to poll, EXECUTE to fetch and to complete.
abbrev pub Permitted : ℕ → ℕ → Request → Kernel → Type 0
Permitted now pid (submit req) k = MayUse now pid cap_write k
Permitted now pid (fetch ok) k = MayUse now pid cap_execute k
Permitted now pid (complete req) k = MayUse now pid cap_execute k
Permitted now pid (poll id ok) k = MayUse now pid cap_write k
Permitted now pid unknown k = ⊥

-- What each call returns when it is refused.
abbrev pub refusal : Request → ℕ
refusal unknown = einval
refusal q = eperm

-- A refused call: the job table, the declared intents and every slot of the capability table are as they
-- were, and the caller gets nothing.
pub record Refused (q : Request) (b : Broker) (k : Kernel) (o : Outcome) : Type 0 where
  pub code : o.0 ≡ refusal q
  pub silence : o.1 ≡ nothing
  pub jobs : o.2 ≡ b
  pub slots : o.3.caps.table ≡ k.caps.table
  pub intents : o.3.intents ≡ k.intents

-- `authorize` writes the ledger alone, and not even that when it lets a call through.
authorize-keeps :
    (now pid perm : ℕ) (k : Kernel)
    → let k' = (authorize now pid resource_device perm device_id_qpu k).1 in
      (k'.caps.table ≡ k.caps.table) × (k'.intents ≡ k.intents)
unfolding authorize
authorize-keeps now pid perm k = ground arith

authorize-passes :
    (now pid perm : ℕ) (k : Kernel)
    → (authorize now pid resource_device perm device_id_qpu k).0 ≡ true
    → (authorize now pid resource_device perm device_id_qpu k).1 ≡ k
unfolding authorize manifest_check
authorize-passes now pid perm k ok =
    elim (cap_find_resource-cases now pid resource_device perm device_id_qpu k.caps) [
      | inr missing ↦ absurd (ground (arith, missing, ok))
      | inl held ↦ elim (Bool-cases (allows pid resource_device device_id_qpu k.intents)) [
        | inl passes ↦ rw (held, passes, authorize, manifest_check) refl
        | inr missed ↦ absurd (ground (arith, held, missed, ok))
      ]
    ]

-- A refused call and a served one are told apart by the right on the QPU.
abbrev Decides : ℕ → ℕ → ℕ → Request → Broker → Kernel → Outcome → Type 0
Decides now pid perm q b k o =
    ((¬ (MayUse now pid perm k)) × Refused q b k o)
    ⊎ (MayUse now pid perm k × (o ≡ serve now pid q b k))

guarded-Decides :
    (now pid perm : ℕ) (q : Request) (b : Broker) (k : Kernel)
    → IsValid k.caps
    → refusal q ≡ eperm
    → Decides now pid perm q b k (guarded now pid (some perm) q b k)
guarded-Decides now pid perm q b k v code =
    let a = authorize now pid resource_device perm device_id_qpu k in
    let (slots, intents) = authorize-keeps now pid perm k in
    let (to, from) = authorize_iff now pid resource_device perm device_id_qpu k v in
    elim (Bool-cases a.0) [
      | inl ok ↦
          let is : serve now pid q b a.1 ≡ guarded now pid (some perm) q b k = ground (arith, ok) in
          inr (to ok, sym is ∙ ap (serve now pid q b) (authorize-passes now pid perm k ok))
      | inr refused ↦
          let is : (eperm, nothing, b, a.1) ≡ guarded now pid (some perm) q b k =
            ground (arith, refused) in
          inl (
            (λ may. absurd (ground (arith, from may, refused))),
            subst (Refused q b k) is (record {
              code = sym code;
              silence = refl;
              jobs = refl;
              slots = slots;
              intents = intents;
            }),
          )
    ]

-- In a valid state of the capability table a call of SYS_QPU is served exactly when some live
-- capability grants the caller the call's right on the QPU and its manifest declares it: WRITE to submit
-- and poll, EXECUTE to fetch and complete; the kernel is then as it was when the broker gets the call. Else it returns EPERM, or EINVAL for an unknown operation,
-- gives the caller nothing, and changes no job, no intent and no slot of the capability table.
pub sys_qpu_authority :
    (now pid : ℕ) (q : Request) (b : Broker) (k : Kernel)
    → IsValid k.caps
    → ((¬ (Permitted now pid q k)) × Refused q b k (sys_qpu now pid q b k))
      ⊎ (Permitted now pid q k × (sys_qpu now pid q b k ≡ serve now pid q b k))
unfolding sys_qpu
sys_qpu_authority now pid (submit req) b k v =
    guarded-Decides now pid cap_write (submit req) b k v refl
sys_qpu_authority now pid (fetch ok) b k v =
    guarded-Decides now pid cap_execute (fetch ok) b k v refl
sys_qpu_authority now pid (complete req) b k v =
    guarded-Decides now pid cap_execute (complete req) b k v refl
sys_qpu_authority now pid (poll id ok) b k v =
    guarded-Decides now pid cap_write (poll id ok) b k v refl
sys_qpu_authority now pid unknown b k v =
    inl (
      (λ no. no),
      record { code = refl; silence = refl; jobs = refl; slots = refl; intents = refl },
    )
