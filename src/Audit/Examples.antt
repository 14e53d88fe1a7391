-- ===== src/Audit/Examples.antt =====
-- Runs of the ledger, and its theorems at concrete ledgers.
use quantum_os.Prelude.{◌≡◌, ◌≢◌, refl, [], ◌∷◌, arith, true}
use quantum_os.Audit.Kind
use quantum_os.Audit.Ring.{
  Event, Entry, Ledger, v_eperm, same, last_index, repeats, appended, audit_record,
}
use quantum_os.Audit.Blob.{audit_serialize, audit_load}
use quantum_os.Audit.Durable.{Restores, audit_load-serialize}
use quantum_os.Audit.History.{Holds, IsNumbered, audit_all, note_all, audit_all-Holds}
use quantum_os.Audit.Flood.{flood, flood_one_slot}

-- A zeroed slot of the ring, and the ledger at boot.
abbrev pub empty_entry : Entry
empty_entry = record {
  seq = 0;
  tick = 0;
  event = record {
    kind = 0;
    pid = 0;
    verdict = 0;
    resource_type = 0;
    resource_id = 0;
    permissions = 0;
  };
  count = 0;
}

abbrev pub empty_ledger : Ledger
empty_ledger = record { ring = λ _. empty_entry; total = 0; coalesce_floor = 0 }

-- The denial of a write to device 3 by process 7.
abbrev denial : Event
denial = record {
  kind = Kind.deny;
  pid = 7;
  verdict = v_eperm;
  resource_type = 2;
  resource_id = 3;
  permissions = 2;
}

empty_Holds : Holds empty_ledger []
empty_Holds = record { counted = refl; shown = λ j a b. absurd (omega arith) }

audit_all-Holds_example :
    Holds
      (audit_all ((4, denial) ∷ (5, denial) ∷ []) empty_ledger)
      (note_all 0 ((4, denial) ∷ (5, denial) ∷ []) [])
    × IsNumbered (note_all 0 ((4, denial) ∷ (5, denial) ∷ []) [])
audit_all-Holds_example =
    audit_all-Holds ((4, denial) ∷ (5, denial) ∷ []) empty_ledger [] empty_Holds tt (omega arith)

-- Two denials are one entry, counted twice.
note_all_run :
    note_all 0 ((4, denial) ∷ (5, denial) ∷ []) []
    ≡ (record { seq = 0; tick = 5; event = denial; count = 2 }) ∷ []
unfolding same
note_all_run = refl

apart : 9 ≢ last_index (audit_record 4 denial empty_ledger)
unfolding audit_record repeats appended
apart = omega arith

flood_one_slot_example :
    ((flood denial (4 ∷ 5 ∷ 6 ∷ []) empty_ledger).total
      ≡ (audit_record 4 denial empty_ledger).total)
    × ((flood denial (4 ∷ 5 ∷ 6 ∷ []) empty_ledger).ring 9
        ≡ (audit_record 4 denial empty_ledger).ring 9)
flood_one_slot_example =
    flood_one_slot 4 denial (5 ∷ 6 ∷ []) empty_ledger 9 (omega arith) (omega arith) apart

-- A ring of one denial, over and over.
abbrev denied : Ledger
denied = record {
  ring = λ i. record { seq = 300; tick = 9; event = denial; count = 2 };
  total = 301;
  coalesce_floor = 0;
}

audit_load-serialize_example :
    let (len, buf) = audit_serialize true 10752 (λ _. 255) denied in
    Restores denied (audit_load true buf len empty_ledger)
audit_load-serialize_example =
    audit_load-serialize 10752 (λ _. 255) denied empty_ledger (omega arith) (omega arith)
      (λ i. record {
        seq = omega arith;
        pid = omega arith;
        kind = omega arith;
        verdict = omega arith;
        resource_type = omega arith;
        resource_id = omega arith;
        permissions = omega arith;
        count = omega arith;
      })
