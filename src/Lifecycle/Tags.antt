-- ===== src/Lifecycle/Tags.antt =====
-- The entries without what the tear-down of another process can change, and the steps of `process_destroy`
-- that change no more than that.
use quantum_os.Prelude.{
  ℕ, Bool, true, false, not, ◌||◌, Option, none, some, ◌==◌, if◌then◌else◌, ◌≡◌, refl, inl, inr, ap,
  Bool-cases,
}
use quantum_os.Net.{Net, net_udp_cleanup, net_tcp_cleanup, kicked}
use quantum_os.Process.{
  kernel_process_id, Process, Processes, is_ready, process_is_valid, process_get_by_pid,
}
use quantum_os.Process.Queue.{store, remove_from_ready_queue}
use quantum_os.Process.Essence.{store-reads, essence, remove-Alike}
use quantum_os.Scheduler.{Scheduler, scheduler_boost_if_ready, scheduler_net_kick}
use quantum_os.Lifecycle.Family.{process_remove_child, remove_at, without_child}
use quantum_os.Lifecycle.Destroy.{orphan, discount, is_zombie}

-- The entry without what the tear-down of another process can change.
abbrev pub bare : Process → Process
bare p = record (essence p) { io_boost = false; children = λ _. 0; child_count = 0 }

-- The same bare entries, and the same current process.
pub record SameTags (ps qs : Processes) : Type 0 where
  pub tags : (k : ℕ) → bare (ps.table k) ≡ bare (qs.table k)
  pub current : ps.current ≡ qs.current
  pub initialized : ps.initialized ≡ qs.initialized
  pub generations : ps.slot_generation ≡ qs.slot_generation
  pub armed : ps.fail_next_create ≡ qs.fail_next_create

tags_refl : (ps : Processes) → SameTags ps ps
tags_refl ps = record {
  tags = λ k. refl;
  current = refl;
  initialized = refl;
  generations = refl;
  armed = refl;
}

store-tags :
    (pid : ℕ) (f : Process → Process) (ps : Processes)
    → ((p : Process) → bare (f p) ≡ bare p)
    → SameTags (store pid f ps) ps
store-tags pid f ps keeps = record {
  tags = λ k. store-reads bare pid f ps k keeps;
  current = refl;
  initialized = refl;
  generations = refl;
  armed = refl;
}

store_if-tags :
    (b : Bool) (pid : ℕ) (f : Process → Process) (ps : Processes)
    → ((p : Process) → bare (f p) ≡ bare p)
    → SameTags (if b then store pid f ps else ps) ps
store_if-tags true pid f ps keeps = store-tags pid f ps keeps
store_if-tags false pid f ps keeps = tags_refl ps

boost-tags : (pid : ℕ) (ps : Processes) → SameTags (scheduler_boost_if_ready pid ps) ps
unfolding scheduler_boost_if_ready process_get_by_pid
boost-tags pid ps = elim (Bool-cases (process_is_valid pid ps)) [
  | inr invalid ↦ rw (invalid, scheduler_boost_if_ready) (tags_refl ps)
  | inl valid ↦
      rw (valid, scheduler_boost_if_ready)
        (store_if-tags (is_ready (ps.table pid).state) pid (λ p. record p { io_boost = true }) ps
          (λ p. refl))
]

kick-tags : (s : Scheduler) (ps : Processes) → SameTags (scheduler_net_kick s ps) ps
unfolding scheduler_net_kick
kick-tags s ps = elim (Bool-cases (not (s.net_thread_pid == 0))) [
  | inl on ↦ rw on (boost-tags s.net_thread_pid ps)
  | inr off ↦ rw off (tags_refl ps)
]

kicked-tags : (b : Bool) (s : Scheduler) (ps : Processes) → SameTags (kicked b s ps) ps
kicked-tags true s ps = kick-tags s ps
kicked-tags false s ps = tags_refl ps

pub udp-tags :
    (pid : ℕ) (s : Scheduler) (ps : Processes) (n : Net)
    → SameTags (net_udp_cleanup pid s ps n).0 ps
unfolding net_udp_cleanup
udp-tags pid s ps n = kicked-tags _ s ps

pub tcp-tags :
    (pid : ℕ) (s : Scheduler) (ps : Processes) (n : Net)
    → SameTags (net_tcp_cleanup pid s ps n).0 ps
unfolding net_tcp_cleanup
tcp-tags pid s ps n = kicked-tags _ s ps

pub remove-tags : (pid : ℕ) (ps : Processes) → SameTags (remove_from_ready_queue pid ps) ps
remove-tags pid ps =
    let a = remove-Alike pid ps in
    record {
      tags = λ k. ap bare (a.entries k);
      current = a.current;
      initialized = a.initialized;
      generations = a.generations;
      armed = a.armed;
    }

remove_at-tags :
    (parent : ℕ) (o : Option ℕ) (ps : Processes) → SameTags (remove_at parent o ps).1 ps
remove_at-tags parent none ps = tags_refl ps
remove_at-tags parent (some i) ps = store-tags parent (without_child i) ps (λ p. refl)

remove_child-tags :
    (parent child : ℕ) (ps : Processes) → SameTags (process_remove_child parent child ps).1 ps
unfolding process_remove_child
remove_child-tags parent child ps =
    elim (Bool-cases (not (process_is_valid parent ps) || not (process_is_valid child ps))) [
      | inl invalid ↦ rw invalid (tags_refl ps)
      | inr valid ↦ rw valid (remove_at-tags parent _ ps)
    ]

pub orphan-tags : (pid : ℕ) (ps : Processes) → SameTags (orphan pid ps) ps
orphan-tags pid ps =
    let parent = (ps.table pid).parent_pid in
    elim (Bool-cases (not (parent == kernel_process_id))) [
      | inl has ↦ rw has (remove_child-tags parent pid ps)
      | inr none_ ↦ rw none_ (tags_refl ps)
    ]

pub discount-tags : (pid : ℕ) (ps : Processes) → SameTags (discount pid ps) ps
discount-tags pid ps = elim (Bool-cases (not (is_zombie (ps.table pid).state))) [
  | inl live ↦ rw live (record {
    tags = λ k. refl;
    current = refl;
    initialized = refl;
    generations = refl;
    armed = refl;
  })
  | inr dead ↦ rw dead (tags_refl ps)
]
