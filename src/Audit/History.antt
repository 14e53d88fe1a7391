-- ===== src/Audit/History.antt =====
-- The ledger against an unbounded history: the ring holds the latest 256 entries of it.
use quantum_os.Prelude.{
  ℕ, zero, suc, sym, subst, ◌∙◌, ◌+◌, ◌-◌, ◌%◌, ◌^◌, ◌<◌, ◌≤◌, ◌≡◌, refl, false, ◌&&◌, List, [],
  ◌∷◌, some, ltb, if◌then◌else◌, length, get_elem?, arith, Bool-cases, inl, inr,
}
use quantum_os.Audit.Ring.{
  Event, Entry, Ledger, log_entries, last_index, repeats, repeats_above, same, coalesced, appended,
  audit_record,
}

-- All entries since the ledger began, newest first.
abbrev pub History : Type 0
History = List Entry

-- What recording an event means: an identical record right after another bumps its count, unless
-- all entries stand below the floor.
abbrev pub note_in : ℕ → ℕ → Event → History → History
note_in floor now e [] = record { seq = 0; tick = now; event = e; count = 1 } ∷ []
note_in floor now e (x ∷ h) =
    if ltb floor (length (x ∷ h)) && same x e
    then (record x { count = (x.count + 1) % 2 ^ 32; tick = now }) ∷ h
    else (record { seq = length (x ∷ h); tick = now; event = e; count = 1 }) ∷ x ∷ h

-- The ring shows the latest entries of the history, each at its place.
pub record Holds (l : Ledger) (h : History) : Type 0 where
  pub counted : l.total ≡ length h
  pub shown :
      (j : ℕ)
      → j < log_entries
      → j < length h
      → get_elem? h j ≡ some (l.ring ((length h - 1 - j) % log_entries))

-- Entry numbers are positions: the oldest is 0.
abbrev pub IsNumbered : History → Type 0
IsNumbered [] = Unit {0}
IsNumbered (x ∷ h) = (x.seq ≡ length h) × IsNumbered h

abbrev fresh_entry : ℕ → Event → History → Entry
fresh_entry now e h = record { seq = length h; tick = now; event = e; count = 1 }

appended-Holds :
    (now : ℕ) (e : Event) (l : Ledger) (h : History)
    → Holds l h
    → l.total + 1 < 2 ^ 64
    → Holds (appended now e l) (fresh_entry now e h ∷ h)
unfolding appended
appended-Holds now e l h v room = record { counted = ground arith; shown = shown }
  where
    shown :
        (j : ℕ)
        → j < log_entries
        → j < suc (length h)
        → get_elem? (fresh_entry now e h ∷ h) j
          ≡ some ((appended now e l).ring ((suc (length h) - 1 - j) % log_entries))
    shown zero a b = ground (arith, v.counted)
    shown (suc j) a b = ground (arith, v.counted, v.shown j (omega arith) (omega arith))

coalesced-Holds :
    (now : ℕ) (l : Ledger) (x : Entry) (h : History)
    → Holds l (x ∷ h)
    → Holds (coalesced now l) ((record x { count = (x.count + 1) % 2 ^ 32; tick = now }) ∷ h)
unfolding coalesced
coalesced-Holds now l x h v = record { counted = v.counted; shown = shown }
  where
    shown :
        (j : ℕ)
        → j < log_entries
        → j < suc (length h)
        → get_elem? ((record x { count = (x.count + 1) % 2 ^ 32; tick = now }) ∷ h) j
          ≡ some ((coalesced now l).ring ((suc (length h) - 1 - j) % log_entries))
    shown zero a b = ground (arith, v.counted, v.shown 0 (omega arith) (omega arith))
    shown (suc j) a b = ground (arith, v.counted, v.shown (suc j) a b)

-- The last slot of the ring is the head of the history.
head_shown : (l : Ledger) (x : Entry) (h : History) → Holds l (x ∷ h) → l.ring (last_index l) ≡ x
head_shown l x h v = ground (arith, v.counted, v.shown 0 (omega arith) (omega arith))

-- The test of `audit_record`, read on the history.
test_shown :
    (e : Event) (l : Ledger) (x : Entry) (h : History)
    → Holds l (x ∷ h)
    → repeats e l ≡ (ltb l.coalesce_floor (length (x ∷ h)) && same x e)
unfolding repeats
test_shown e l x h v = ground (arith, v.counted, head_shown l x h v)

-- From a ring that shows a history, `audit_record` leaves a ring that shows the history with the
-- event noted in it, as long as the 64-bit count of records does not wrap.
pub audit_record-Holds :
    (now : ℕ) (e : Event) (l : Ledger) (h : History)
    → Holds l h
    → l.total + 1 < 2 ^ 64
    → Holds (audit_record now e l) (note_in l.coalesce_floor now e h)
unfolding audit_record
audit_record-Holds now e l [] v room =
    let empty : repeats e l ≡ false = ground (arith, v.counted, repeats_above e l) in
    rw empty (appended-Holds now e l [] v room)
audit_record-Holds now e l (x ∷ h) v room = elim (Bool-cases (repeats e l)) [
  | inl again ↦ rw (again, sym (test_shown e l x h v) ∙ again) (coalesced-Holds now l x h v)
  | inr new ↦ rw (new, sym (test_shown e l x h v) ∙ new) (appended-Holds now e l (x ∷ h) v room)
]

-- Recording keeps the numbering of a history: entry numbers rise by one along it.
pub note_in-IsNumbered :
    (floor now : ℕ) (e : Event) (h : History) → IsNumbered h → IsNumbered (note_in floor now e h)
note_in-IsNumbered floor now e [] v = (refl, tt)
note_in-IsNumbered floor now e (x ∷ h) v =
    elim (Bool-cases (ltb floor (length (x ∷ h)) && same x e)) [
      | inl again ↦ rw again v
      | inr new ↦ rw new (refl, v)
    ]

audit_record-total : (now : ℕ) (e : Event) (l : Ledger) → (audit_record now e l).total ≤ l.total + 1
unfolding audit_record coalesced appended
audit_record-total now e l = ground arith

pub audit_record-floor :
    (now : ℕ) (e : Event) (l : Ledger) → (audit_record now e l).coalesce_floor ≡ l.coalesce_floor
unfolding audit_record coalesced appended
audit_record-floor now e l = ground arith

-- Events with their ticks, oldest first, recorded one after the other.
unfoldable pub audit_all : List (ℕ × Event) → Ledger → Ledger
audit_all [] l = l
audit_all ((now, e) ∷ es) l = audit_all es (audit_record now e l)

abbrev pub note_all : ℕ → List (ℕ × Event) → History → History
note_all floor [] h = h
note_all floor ((now, e) ∷ es) h = note_all floor es (note_in floor now e h)

-- From a ring that shows a numbered history, any run of `audit_record` leaves a ring that shows the
-- history with the same events noted in it, numbered too, as long as the 64-bit count of records
-- does not wrap.
pub audit_all-Holds :
    (es : List (ℕ × Event)) (l : Ledger) (h : History)
    → Holds l h
    → IsNumbered h
    → l.total + length es < 2 ^ 64
    → Holds (audit_all es l) (note_all l.coalesce_floor es h)
      × IsNumbered (note_all l.coalesce_floor es h)
unfolding audit_all
audit_all-Holds [] l h v n room = (v, n)
audit_all-Holds ((now, e) ∷ es) l h v n room =
    let floor = audit_record-floor now e l in
    let rest =
      audit_all-Holds es (audit_record now e l) (note_in l.coalesce_floor now e h)
        (audit_record-Holds now e l h v (omega arith))
        (note_in-IsNumbered l.coalesce_floor now e h n)
        (omega (arith, audit_record-total now e l)) in
    subst
      (λ f.
        Holds (audit_all es (audit_record now e l))
          (note_all f es (note_in l.coalesce_floor now e h))
        × IsNumbered (note_all f es (note_in l.coalesce_floor now e h)))
      floor rest
