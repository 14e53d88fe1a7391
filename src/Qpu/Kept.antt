-- ===== src/Qpu/Kept.antt =====
-- Each call of qpu.c keeps the invariant of the job table.
use quantum_os.Prelude.{
  ℕ, zero, suc, ◌+◌, ◌≤◌, ◌≡◌, ◌⊎◌, refl, subst, true, false, not, ◌&&◌, ◌||◌, ◌==◌, update, arith,
  inl, inr, Bool-cases, Option-cases, Option, none, some, find_first, find_first-some, leb, ltb,
}
use quantum_os.Process.{Processes, process_get_generation}
use quantum_os.Manifest.Quota.{manifest_qsub_precheck}
use quantum_os.Syscall.Gate.{Kernel}
use quantum_os.Qpu.Jobs.{
  max_jobs, inflight_max, circuit_max, result_max, Job, JobState, free, pending, running, done,
  Broker, Submission, Completion, is_free, is_pending, is_running, is_inflight, inflight, slot_free,
}
use quantum_os.Qpu.Broker.{
  qpu_submit, enqueue_job, submitted, next_id, qpu_fetch, oldest, older, fetched_by, qpu_complete,
  complete_job, completed, find_running, qpu_poll, poll_state, find_live, qpu_on_process_destroy,
  swept,
}
use quantum_os.Qpu.Slots.{IsValid, inflight_mono, inflight-update}

kept_where :
    (b b' : Broker)
    → IsValid b
    → ((k : ℕ) → is_free (b'.jobs k).state ≡ true → b'.jobs k ≡ slot_free)
    → ((pid k : ℕ) → is_inflight pid (b'.jobs k) ≡ true → is_inflight pid (b.jobs k) ≡ true)
    → IsValid b'
kept_where b b' v s c = record {
  scrubbed = s;
  capped = λ pid. omega (arith, v.capped pid, inflight_mono pid b.jobs b'.jobs max_jobs 0 (c pid));
}

-- One slot changes hands to nobody, and is scrubbed if it is freed.
abbrev Better : Job → Job → Type 0
Better j j' =
    (is_free j'.state ≡ true → j' ≡ slot_free)
    × ((pid : ℕ) → is_inflight pid j' ≡ true → is_inflight pid j ≡ true)

update-IsValid :
    (b : Broker) (i : ℕ) (j : Job)
    → IsValid b
    → Better (b.jobs i) j
    → IsValid (record b { jobs = update b.jobs i j })
update-IsValid b i j v (s, c) =
    kept_where b (record b { jobs = update b.jobs i j }) v
      (λ k off. elim (Bool-cases (i == k)) [
        | inl here ↦ ground (arith, here, s, off)
        | inr there ↦ ground (arith, there, v.scrubbed k, off)
      ])
      (λ pid k on. elim (Bool-cases (i == k)) [
        | inl here ↦
            let same : i ≡ k = ground (arith, here) in
            subst (λ x. is_inflight pid (b.jobs x) ≡ true) same (c pid (ground (arith, here, on)))
        | inr there ↦ ground (arith, there, on)
      ])

freed-Better : (j : Job) → Better j slot_free
freed-Better j = (λ h. refl, λ pid h. absurd (ground arith))

-- The state after a submission was accepted in slot `i`.
abbrev taken : ℕ → ℕ → ℕ → Submission → Broker → Broker
taken pid generation i req b = record b {
  jobs = update b.jobs i (submitted pid generation b.next_job_id req (b.jobs i));
  next_job_id = next_id b.next_job_id;
}

taken-IsValid :
    (pid generation i : ℕ) (req : Submission) (b : Broker)
    → IsValid b
    → leb inflight_max (inflight pid b.jobs max_jobs 0) ≡ false
    → IsValid (taken pid generation i req b)
taken-IsValid pid generation i req b v room = record {
  scrubbed = λ k off. elim (Bool-cases (i == k)) [
    | inl here ↦ absurd (ground (arith, here, off))
    | inr there ↦ ground (arith, there, v.scrubbed k, off)
  ];
  capped = λ p. elim (Bool-cases (p == pid)) [
    | inl own ↦
        let same : p ≡ pid = ground (arith, own) in
        ground (
          arith,
          same,
          room,
          inflight-update p b.jobs i (submitted pid generation b.next_job_id req (b.jobs i))
              max_jobs 0,
        )
    | inr other ↦ omega (
      arith,
      v.capped p,
      inflight_mono p b.jobs (taken pid generation i req b).jobs max_jobs 0
          (λ k on. ground (arith, other, on)),
    )
  ];
}

enqueue-IsValid :
    (now pid : ℕ) (req : Submission) (b : Broker) (k : Kernel)
    → IsValid b
    → IsValid (enqueue_job now pid req b k).1
unfolding enqueue_job
enqueue-IsValid now pid req b k v =
    elim (Bool-cases (req.circuit_len == 0 || ltb circuit_max req.circuit_len)) [
      | inl bad ↦ subst IsValid (ground (arith, bad)) v
      | inr good ↦ elim (Bool-cases (leb inflight_max (inflight pid b.jobs max_jobs 0))) [
        | inl full ↦ subst IsValid (ground (arith, good, full)) v
        | inr room ↦
            elim (Option-cases (find_first max_jobs 0 (λ (i : ℕ). is_free (b.jobs i).state))) [
              | inl none_free ↦ subst IsValid (ground (arith, good, room, none_free)) v
              | inr (i, found) ↦
                  subst IsValid (ground (arith, good, room, found))
                    (taken-IsValid pid (process_get_generation pid k.processes) i req b v room)
            ]
      ]
    ]

pub submit-IsValid :
    (now pid : ℕ) (req : Submission) (b : Broker) (k : Kernel)
    → IsValid b
    → IsValid (qpu_submit now pid req b k).1
unfolding qpu_submit
submit-IsValid now pid req b k v =
    let caps = k.caps in
    let l = manifest_qsub_precheck now pid k.intents caps.ledger in
    let k' : Kernel = record k { caps = record caps { ledger = l.1 } } in
    elim (Bool-cases l.0) [
      | inl ok ↦ subst IsValid (ground (arith, ok)) (enqueue-IsValid now pid req b k' v)
      | inr refused ↦ subst IsValid (ground (arith, refused)) v
    ]

older-pending :
    (jobs : ℕ → Job) (i : ℕ) (best : Option ℕ) (k : ℕ)
    → older jobs i best ≡ some k
    → (best ≡ some k) ⊎ (is_pending (jobs k).state ≡ true)
older-pending jobs i none k e = inr (ground arith)
older-pending jobs i (some best) k e =
    elim (Bool-cases (is_pending (jobs i).state && ltb (jobs i).job_id (jobs best).job_id)) [
      | inl is_so ↦ inr (ground (arith, is_so))
      | inr is_not ↦ inl (ground (arith, is_not))
    ]

pending_inflight :
    (pid : ℕ) (j : Job)
    → is_pending j.state ≡ true
    → is_inflight pid (fetched_by 0 0 j) ≡ true
    → is_inflight pid j ≡ true
pending_inflight pid j is_so on = ground (arith, is_so, on)

running_inflight :
    (pid : ℕ) (j : Job)
    → is_running j.state ≡ true
    → (j.owner_pid == pid) ≡ true
    → is_inflight pid j ≡ true
running_inflight pid j is_so on = ground (arith, is_so, on)

pub empty_inflight :
    (pid : ℕ) (jobs : ℕ → Job) (n i : ℕ)
    → ((k : ℕ) → jobs k ≡ slot_free)
    → inflight pid jobs n i ≤ inflight_max
unfolding inflight
empty_inflight pid jobs zero i u = omega arith
empty_inflight pid jobs (suc n) i u = ground (arith, u i, empty_inflight pid jobs n (i + 1) u)

-- The slot that the search ends with is pending, or is the one it began with.
pub oldest-pending :
    (jobs : ℕ → Job) (n i : ℕ) (best : Option ℕ) (k : ℕ)
    → oldest jobs n i best ≡ some k
    → (best ≡ some k) ⊎ (is_pending (jobs k).state ≡ true)
unfolding oldest
oldest-pending jobs zero i best k e = inl e
oldest-pending jobs (suc n) i best k e =
    elim (oldest-pending jobs n (i + 1) (older jobs i best) k e) [
      | inr is_so ↦ inr is_so
      | inl here ↦ older-pending jobs i best k here
    ]

pub fetch-IsValid :
    (pid : ℕ) (ps : Processes) (b : Broker) → IsValid b → IsValid (qpu_fetch pid ps b).2
unfolding qpu_fetch
fetch-IsValid pid ps b v = elim (Option-cases (oldest b.jobs max_jobs 0 none)) [
  | inl idle ↦ subst IsValid (ground (arith, idle)) v
  | inr (i, found) ↦ elim (oldest-pending b.jobs max_jobs 0 none i found) [
    | inl is_not ↦ absurd (ground arith)
    | inr is_so ↦
        let next = record b {
          jobs = update b.jobs i (fetched_by pid (process_get_generation pid ps) (b.jobs i));
        } in
        let is : next ≡ (qpu_fetch pid ps b).2 = ground (arith, found) in
        subst IsValid is (
          update-IsValid b i _ v
            (λ h. absurd (ground arith), λ p on. pending_inflight p (b.jobs i) is_so on))
  ]
]

pub complete-IsValid :
    (now pid : ℕ) (req : Completion) (b : Broker) (k : Kernel)
    → IsValid b
    → IsValid (qpu_complete now pid req b k).1
unfolding qpu_complete complete_job
complete-IsValid now pid req b k v = elim (Bool-cases (ltb result_max req.result_len)) [
  | inl long ↦ subst IsValid (ground (arith, long)) v
  | inr short ↦ elim (Option-cases (find_running req.job_id b)) [
    | inl unknown ↦ subst IsValid (ground (arith, short, unknown)) v
    | inr (i, found) ↦
        let j = b.jobs i in
        let (is, lo, hi) =
          find_first-some max_jobs 0
            (λ (x : ℕ). is_running (b.jobs x).state && (b.jobs x).job_id == req.job_id) {k = i}
            found in
        elim (Bool-cases (
          not (j.executor_pid == pid)
          || not (j.executor_generation == process_get_generation pid k.processes))) [
            | inl forged ↦ subst IsValid (ground (arith, short, found, forged)) v
            | inr own ↦ elim (Bool-cases j.orphaned) [
              | inl dropped ↦
                  subst IsValid (ground (arith, short, found, own, dropped))
                    (update-IsValid b i slot_free v (freed-Better j))
              | inr wanted ↦ subst IsValid (ground (arith, short, found, own, wanted)) (
                  update-IsValid b i (completed req j) v (
                    λ h. absurd (ground arith),
                    λ p on. running_inflight p j (ground (arith, is)) on,
                  ))
            ]
          ]
  ]
]

poll_state-IsValid : (s : JobState) (i : ℕ) (b : Broker) → IsValid b → IsValid (poll_state s i b).2
unfolding poll_state
poll_state-IsValid pending i b v = v
poll_state-IsValid running i b v = v
poll_state-IsValid done i b v = update-IsValid b i slot_free v (freed-Better (b.jobs i))
poll_state-IsValid free i b v = update-IsValid b i slot_free v (freed-Better (b.jobs i))

pub poll-IsValid :
    (pid id : ℕ) (ps : Processes) (b : Broker) → IsValid b → IsValid (qpu_poll pid id ps b).2
unfolding qpu_poll
poll-IsValid pid id ps b v = elim (Option-cases (find_live id b)) [
  | inl unknown ↦ subst IsValid (ground (arith, unknown)) v
  | inr (i, found) ↦
      let j = b.jobs i in
      elim (Bool-cases
        (not (j.owner_pid == pid) || not (j.owner_generation == process_get_generation pid ps))) [
          | inl stranger ↦ subst IsValid (ground (arith, found, stranger)) v
          | inr own ↦ subst IsValid (ground (arith, found, own)) (poll_state-IsValid j.state i b v)
        ]
]

swept-Better :
    (pid : ℕ) (j : Job) → (is_free j.state ≡ true → j ≡ slot_free) → Better j (swept pid j)
unfolding swept
swept-Better pid j clean = elim (Bool-cases (is_free j.state)) [
  | inl off ↦ subst (Better j) (ground (arith, off)) (clean, λ p on. on)
  | inr live ↦ (λ h. ground (arith, live, h), λ p on. ground (arith, live, on))
]

pub destroy-IsValid : (pid : ℕ) (b : Broker) → IsValid b → IsValid (qpu_on_process_destroy pid b)
unfolding qpu_on_process_destroy
destroy-IsValid pid b v =
    kept_where b (qpu_on_process_destroy pid b) v
      (λ k off. elim (Bool-cases (ltb k max_jobs)) [
        | inl inside ↦ ground (arith, inside, off, (swept-Better pid (b.jobs k) (v.scrubbed k)).0)
        | inr outside ↦ ground (arith, outside, off, v.scrubbed k)
      ])
      (λ p k on. elim (Bool-cases (ltb k max_jobs)) [
        | inl inside ↦ ground (arith, inside, on, (swept-Better pid (b.jobs k) (v.scrubbed k)).1 p)
        | inr outside ↦ ground (arith, outside, on)
      ])
