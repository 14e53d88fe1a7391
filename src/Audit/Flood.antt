-- ===== src/Audit/Flood.antt =====
-- Identical records one after another take one slot of the ring.
use quantum_os.Prelude.{
  ℕ, ◌+◌, ◌^◌, ◌≤◌, ◌<◌, ◌≡◌, ◌≢◌, refl, true, List, [], ◌∷◌, arith, ◌∙◌, Bool-cases, inl, inr,
  ==_refl,
}
use quantum_os.Audit.Ring.{
  Event, Entry, Ledger, last_index, same, repeats, coalesced, appended, audit_record,
}

-- A record of the event at each of the ticks.
unfoldable pub flood : Event → List ℕ → Ledger → Ledger
flood e [] l = l
flood e (now ∷ ticks) l = flood e ticks (audit_record now e l)

same_refl : (x : Entry) (e : Event) → x.event ≡ e → same x e ≡ true
unfolding same
same_refl x e h = ground arith

repeats-appended :
    (now : ℕ) (e : Event) (l : Ledger)
    → l.coalesce_floor ≤ l.total
    → l.total + 1 < 2 ^ 64
    → repeats e (appended now e l) ≡ true
unfolding repeats appended
repeats-appended now e l above room =
    ground (arith, same_refl (record { seq = l.total; tick = now; event = e; count = 1 }) e refl)

repeats-coalesced : (now : ℕ) (e : Event) (l : Ledger) → repeats e (coalesced now l) ≡ repeats e l
unfolding repeats coalesced same
repeats-coalesced now e l = simp (==_refl (last_index l))

-- Once the event repeats the last entry, recording it again touches that entry alone.
again :
    (now : ℕ) (e : Event) (l : Ledger) → repeats e l ≡ true → audit_record now e l ≡ coalesced now l
unfolding audit_record
again now e l h = rw h

flood_again :
    (e : Event) (ticks : List ℕ) (l : Ledger) (j : ℕ)
    → repeats e l ≡ true
    → j ≢ last_index l
    → ((flood e ticks l).total ≡ l.total) × ((flood e ticks l).ring j ≡ l.ring j)
unfolding flood coalesced
flood_again e [] l j h ne = (refl, refl)
flood_again e (now ∷ ticks) l j h ne =
    rw (again now e l h, flood)
      (ground (arith, flood_again e ticks (coalesced now l) j (repeats-coalesced now e l ∙ h) ne))

record_repeats :
    (now : ℕ) (e : Event) (l : Ledger)
    → l.coalesce_floor ≤ l.total
    → l.total + 1 < 2 ^ 64
    → repeats e (audit_record now e l) ≡ true
unfolding audit_record
record_repeats now e l above room = elim (Bool-cases (repeats e l)) [
  | inl old ↦ rw old (repeats-coalesced now e l ∙ old)
  | inr new ↦ rw new (repeats-appended now e l above room)
]

-- However often an event is recorded after a first time, at whatever ticks, the count of records and
-- every slot but the one of the first record stay as the first left them: a flood of identical
-- denials evicts no evidence.
pub flood_one_slot :
    (now : ℕ) (e : Event) (ticks : List ℕ) (l : Ledger) (j : ℕ)
    → l.coalesce_floor ≤ l.total
    → l.total + 1 < 2 ^ 64
    → j ≢ last_index (audit_record now e l)
    → ((flood e (now ∷ ticks) l).total ≡ (audit_record now e l).total)
      × ((flood e (now ∷ ticks) l).ring j ≡ (audit_record now e l).ring j)
unfolding flood
flood_one_slot now e ticks l j above room ne =
    flood_again e ticks (audit_record now e l) j (record_repeats now e l above room) ne
