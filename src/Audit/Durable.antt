-- ===== src/Audit/Durable.antt =====
-- A ledger that is written out and read back.
use quantum_os.Prelude.{
  ℕ, ◌+◌, ◌-◌, ◌*◌, ◌/◌, ◌%◌, ◌^◌, ◌≤◌, ◌<◌, ◌≡◌, refl, ◌∙◌, ap, ap₂, subst, Bool, true, ◌&&◌, ltb,
  ◌==◌, if◌then◌else◌, arith,
}
use quantum_os.Audit.Ring.{log_entries, Ledger}
use quantum_os.Audit.Blob.{
  blob_magic, blob_version, entry_size, blob_bytes, blob_bufsz, byte_of, header_byte, blob_byte,
  audit_serialize, entry_at, restored_total, header_fits, blob_get_u32, audit_load,
}
use quantum_os.Audit.Fields.{places, field_back, filled, HasWidths, restored, entry_back}

word_of :
    (l : Ledger) (old : ℕ → ℕ) (off v : ℕ)
    → off + 4 ≤ 24
    → v < 2 ^ 32
    → ((k : ℕ) → k < 4 → header_byte l.total (off + k) ≡ byte_of k v)
    → blob_get_u32 (filled l old) off ≡ v
unfolding blob_byte places
word_of l old off v fits small h =
    field_back 4 v (λ k. filled l old (off + k)) small (λ k lt. ground (arith, h k))

-- The words of the header.
module _ (count k : ℕ) (lt : k < 4) where
  magic_bytes : header_byte count (0 + k) ≡ byte_of k blob_magic
  unfolding header_byte
  magic_bytes = ground arith

  version_bytes : header_byte count (4 + k) ≡ byte_of k blob_version
  unfolding header_byte
  version_bytes =
      let at : 4 + k - 4 ≡ k = omega arith in ground (arith, ap (λ x. byte_of x blob_version) at)

  entries_bytes : header_byte count (8 + k) ≡ byte_of k log_entries
  unfolding header_byte
  entries_bytes =
      let at : 8 + k - 8 ≡ k = omega arith in ground (arith, ap (λ x. byte_of x log_entries) at)

  size_bytes : header_byte count (12 + k) ≡ byte_of k entry_size
  unfolding header_byte
  size_bytes =
      let at : 12 + k - 12 ≡ k = omega arith in ground (arith, ap (λ x. byte_of x entry_size) at)

  low_bytes : header_byte count (16 + k) ≡ byte_of k (count % 2 ^ 32)
  unfolding header_byte
  low_bytes =
      let at : 16 + k - 16 ≡ k = omega arith in
      ground (arith, ap (λ x. byte_of x (count % 2 ^ 32)) at)

  high_bytes : header_byte count (20 + k) ≡ byte_of k (count / 2 ^ 32)
  unfolding header_byte
  high_bytes =
      let at : 20 + k - 20 ≡ k = omega arith in
      ground (arith, ap (λ x. byte_of x (count / 2 ^ 32)) at)

module _ (l : Ledger) (old : ℕ → ℕ) (fits : l.total ≤ 2 ^ 48) where
  header_back : header_fits (filled l old) ≡ true
  header_back =
      let magic = word_of l old 0 blob_magic (omega arith) (omega arith) (magic_bytes l.total) in
      let version =
        word_of l old 4 blob_version (omega arith) (omega arith) (version_bytes l.total) in
      let entries =
        word_of l old 8 log_entries (omega arith) (omega arith) (entries_bytes l.total) in
      let size = word_of l old 12 entry_size (omega arith) (omega arith) (size_bytes l.total) in
      λ j.
        magic j == blob_magic
        && (version j == blob_version && (entries j == log_entries && size j == entry_size))

  total_back : restored_total (filled l old) ≡ l.total
  total_back =
      let low =
        word_of l old 16 (l.total % 2 ^ 32) (omega arith) (omega arith) (low_bytes l.total) in
      let high =
        word_of l old 20 (l.total / 2 ^ 32) (omega arith) (omega arith) (high_bytes l.total) in
      ap₂ (λ a b. a + b * 2 ^ 32) low high ∙ omega arith

-- What a ledger that is read back is.
abbrev pub Restores : Ledger → Bool × Ledger → Type 0
Restores l (done, l') =
    (done ≡ true)
    × (l'.total ≡ l.total)
    × (l'.coalesce_floor ≡ l.total)
    × ((i : ℕ) → i < log_entries → l'.ring i ≡ restored (l.ring i))

-- A ledger of at most 2^48 records, its entries of the widths that they are declared with, is written
-- to a buffer that is large enough and read back over any other ledger: every entry comes back as it
-- was but for its tick, which is 0, with the same count of records, and the mark below which nothing
-- coalesces is that count.
pub audit_load-serialize :
    (buf_len : ℕ) (old : ℕ → ℕ) (l before : Ledger)
    → blob_bufsz ≤ buf_len
    → l.total ≤ 2 ^ 48
    → ((i : ℕ) → HasWidths (l.ring i))
    → let (len, buf) = audit_serialize true buf_len old l in
      Restores l (audit_load true buf len before)
unfolding audit_serialize audit_load
audit_load-serialize buf_len old l before room fits widths =
    let head = header_back l old fits in
    let total = total_back l old fits in
    let after : Ledger = record {
      ring = λ i. if ltb i log_entries then entry_at (filled l old) i else before.ring i;
      total = restored_total (filled l old);
      coalesce_floor = restored_total (filled l old);
    } in
    let written : (blob_bytes, filled l old) ≡ audit_serialize true buf_len old l =
      ground (arith, room) in
    let loaded : (true, after) ≡ audit_load true (filled l old) blob_bytes before =
      ground (arith, head, total, fits) in
    subst (λ w. Restores l (audit_load true w.1 w.0 before)) written
      (subst (Restores l) loaded
        (refl, total, total, λ i lt. ground (arith, entry_back l old i lt (widths i))))
