-- ===== src/Audit/Fields.antt =====
-- The fields of an entry in the durable form of the ledger.
use quantum_os.Prelude.{
  ℕ, zero, suc, ◌+◌, ◌-◌, ◌*◌, ◌/◌, ◌%◌, ◌^◌, ◌≤◌, ◌<◌, ◌≡◌, refl, ◌∙◌, ap, ap₂, ltb, if◌then◌else◌,
  arith,
}
use quantum_os.Audit.Ring.{log_entries, Entry, Ledger}
use quantum_os.Audit.Blob.{
  blob_hdr, entry_size, blob_bufsz, byte_of, read_bytes, entry_byte, blob_byte, entry_at,
}

-- 256 to the power `n`.
unfoldable pub places : ℕ → ℕ
places zero = 1
places (suc n) = 256 * places n

read_bytes_ext :
    (n : ℕ) (f g : ℕ → ℕ) → ((k : ℕ) → k < n → f k ≡ g k) → read_bytes n f ≡ read_bytes n g
unfolding read_bytes
read_bytes_ext zero f g h = refl
read_bytes_ext (suc n) f g h =
    ap₂ (λ a b. a + 256 * b) (h 0 (omega arith))
      (read_bytes_ext n (λ k. f (suc k)) (λ k. g (suc k)) (λ k lt. h (suc k) (omega arith)))

-- The bytes of a value that fits give it back.
read_bytes-byte_of : (n v : ℕ) → v < places n → read_bytes n (λ k. byte_of k v) ≡ v
unfolding read_bytes byte_of places
read_bytes-byte_of zero v lt = omega arith
read_bytes-byte_of (suc n) v lt = omega (arith, read_bytes-byte_of n (v / 256) (omega arith))

-- A field of `n` bytes at an offset.
pub field_back :
    (n v : ℕ) (buf : ℕ → ℕ)
    → v < places n
    → ((k : ℕ) → k < n → buf k ≡ byte_of k v)
    → read_bytes n buf ≡ v
field_back n v buf lt h = read_bytes_ext n buf (λ k. byte_of k v) h ∙ read_bytes-byte_of n v lt

-- The fields of an entry have the widths of `audit_entry_t`.
pub record HasWidths (e : Entry) : Type 0 where
  pub seq : e.seq < 2 ^ 64
  pub pid : e.pid < 2 ^ 32
  pub kind : e.kind < 2 ^ 16
  pub verdict : e.verdict < 2 ^ 16
  pub resource_type : e.resource_type < 2 ^ 32
  pub resource_id : e.resource_id < 2 ^ 32
  pub permissions : e.permissions < 2 ^ 32
  pub count : e.count < 2 ^ 32

-- Byte `k` of entry `i` where the blob has it.
entry_in_blob :
    (l : Ledger) (i k : ℕ)
    → i < log_entries
    → k < entry_size
    → blob_byte l (blob_hdr + entry_size * i + k) ≡ entry_byte (l.ring i) k
unfolding blob_byte
entry_in_blob l i k lo lt =
    let index : (blob_hdr + entry_size * i + k - blob_hdr) / entry_size ≡ i = omega arith in
    let offset : (blob_hdr + entry_size * i + k - blob_hdr) % entry_size ≡ k = omega arith in
    ground (arith, ap₂ (λ x y. entry_byte (l.ring x) y) index offset)

-- The buffer that is written.
abbrev pub filled : Ledger → (ℕ → ℕ) → ℕ → ℕ
filled l old k = if ltb k blob_bufsz then blob_byte l k else old k

field_of :
    (l : Ledger) (old : ℕ → ℕ) (i off n v : ℕ)
    → i < log_entries
    → off + n ≤ entry_size
    → v < places n
    → ((k : ℕ) → k < n → entry_byte (l.ring i) (off + k) ≡ byte_of k v)
    → read_bytes n (λ k. filled l old (blob_hdr + entry_size * i + off + k)) ≡ v
field_of l old i off n v lo fits small h =
    field_back n v (λ k. filled l old (blob_hdr + entry_size * i + off + k)) small
      (λ k lt.
        let there = entry_in_blob l i (off + k) lo (omega arith) in
        let place : blob_hdr + entry_size * i + off + k ≡ blob_hdr + entry_size * i + (off + k) =
          omega arith in
        ap (filled l old) place ∙ (ground (arith, there, h k)))

-- The bytes of each field in an entry.
module _ (e : Entry) (k : ℕ) where
  seq_bytes : k < 8 → entry_byte e (0 + k) ≡ byte_of k e.seq
  unfolding entry_byte
  seq_bytes lt = let at : 0 + k ≡ k = omega arith in ground (arith, ap (λ x. byte_of x e.seq) at)

  pid_bytes : k < 4 → entry_byte e (16 + k) ≡ byte_of k e.pid
  unfolding entry_byte
  pid_bytes lt =
      let at : 16 + k - 16 ≡ k = omega arith in ground (arith, ap (λ x. byte_of x e.pid) at)

  kind_bytes : k < 2 → entry_byte e (20 + k) ≡ byte_of k e.kind
  unfolding entry_byte
  kind_bytes lt =
      let at : 20 + k - 20 ≡ k = omega arith in ground (arith, ap (λ x. byte_of x e.kind) at)

  verdict_bytes : k < 2 → entry_byte e (22 + k) ≡ byte_of k e.verdict
  unfolding entry_byte
  verdict_bytes lt =
      let at : 22 + k - 22 ≡ k = omega arith in ground (arith, ap (λ x. byte_of x e.verdict) at)

  type_bytes : k < 4 → entry_byte e (24 + k) ≡ byte_of k e.resource_type
  unfolding entry_byte
  type_bytes lt =
      let at : 24 + k - 24 ≡ k = omega arith in
      ground (arith, ap (λ x. byte_of x e.resource_type) at)

  id_bytes : k < 4 → entry_byte e (28 + k) ≡ byte_of k e.resource_id
  unfolding entry_byte
  id_bytes lt =
      let at : 28 + k - 28 ≡ k = omega arith in ground (arith, ap (λ x. byte_of x e.resource_id) at)

  permissions_bytes : k < 4 → entry_byte e (32 + k) ≡ byte_of k e.permissions
  unfolding entry_byte
  permissions_bytes lt =
      let at : 32 + k - 32 ≡ k = omega arith in ground (arith, ap (λ x. byte_of x e.permissions) at)

  count_bytes : k < 4 → entry_byte e (36 + k) ≡ byte_of k e.count
  unfolding entry_byte
  count_bytes lt =
      let at : 36 + k - 36 ≡ k = omega arith in ground (arith, ap (λ x. byte_of x e.count) at)

-- An entry as a restore leaves it.
abbrev pub restored : Entry → Entry
restored e = record e { tick = 0 }

pub entry_back :
    (l : Ledger) (old : ℕ → ℕ) (i : ℕ)
    → i < log_entries
    → HasWidths (l.ring i)
    → entry_at (filled l old) i ≡ restored (l.ring i)
unfolding entry_at places
entry_back l old i lo w =
    let e = l.ring i in
    let seq = field_of l old i 0 8 e.seq lo (omega arith) w.seq (λ k. seq_bytes e k) in
    let pid = field_of l old i 16 4 e.pid lo (omega arith) w.pid (λ k. pid_bytes e k) in
    let kind = field_of l old i 20 2 e.kind lo (omega arith) w.kind (λ k. kind_bytes e k) in
    let verdict =
      field_of l old i 22 2 e.verdict lo (omega arith) w.verdict (λ k. verdict_bytes e k) in
    let rtype =
      field_of l old i 24 4 e.resource_type lo (omega arith) w.resource_type
        (λ k. type_bytes e k) in
    let rid =
      field_of l old i 28 4 e.resource_id lo (omega arith) w.resource_id (λ k. id_bytes e k) in
    let perms =
      field_of l old i 32 4 e.permissions lo (omega arith) w.permissions
        (λ k. permissions_bytes e k) in
    let count = field_of l old i 36 4 e.count lo (omega arith) w.count (λ k. count_bytes e k) in
    λ j. record {
      seq = seq j;
      tick = 0;
      event = record {
        kind = kind j;
        pid = pid j;
        verdict = verdict j;
        resource_type = rtype j;
        resource_id = rid j;
        permissions = perms j;
      };
      count = count j;
    }
