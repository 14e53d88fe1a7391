-- ===== src/Audit/Blob.antt =====
-- audit.c: the durable form of the ledger, and reading it back. A buffer is a function of the index.
use quantum_os.Prelude.{
  ℕ, zero, suc, ◌+◌, ◌-◌, ◌*◌, ◌/◌, ◌%◌, ◌^◌, Bool, true, false, not, ◌&&◌, ◌||◌, ltb, ◌==◌,
  if◌then◌else◌, find_first, none, some,
}
use quantum_os.Audit.Ring.{log_entries, Entry, Ledger}

-- AUDIT_BLOB_MAGIC, AUDIT_BLOB_VERSION, AUDIT_BLOB_HDR, AUDIT_BLOB_BYTES, AUDIT_BLOB_BUFSZ and the
-- size of an entry
abbrev pub blob_magic : ℕ
blob_magic = 0x31445541

abbrev pub blob_version : ℕ
blob_version = 1

abbrev pub blob_hdr : ℕ
blob_hdr = 32

abbrev pub entry_size : ℕ
entry_size = 40

abbrev pub blob_bytes : ℕ
blob_bytes = 10272

abbrev pub blob_bufsz : ℕ
blob_bufsz = 10752

-- Byte `k` of a value, the lowest first.
unfoldable pub byte_of : ℕ → ℕ → ℕ
byte_of zero v = v % 256
byte_of (suc k) v = byte_of k (v / 256)

-- The value of `n` bytes, the lowest first.
unfoldable pub read_bytes : ℕ → (ℕ → ℕ) → ℕ
read_bytes zero buf = 0
read_bytes (suc n) buf = buf 0 + 256 * read_bytes n (λ k. buf (suc k))

abbrev pub blob_get_u32 : (ℕ → ℕ) → ℕ → ℕ
blob_get_u32 buf at = read_bytes 4 (λ k. buf (at + k))

-- Byte `k` of an entry as it lies in memory.
unfoldable pub entry_byte : Entry → ℕ → ℕ
entry_byte e k =
    if ltb k 8
    then byte_of k e.seq
    else (if ltb k 16
        then byte_of (k - 8) e.tick
        else (if ltb k 20
            then byte_of (k - 16) e.pid
            else (if ltb k 22
                then byte_of (k - 20) e.kind
                else (if ltb k 24
                    then byte_of (k - 22) e.verdict
                    else (if ltb k 28
                        then byte_of (k - 24) e.resource_type
                        else (if ltb k 32
                            then byte_of (k - 28) e.resource_id
                            else (if ltb k 36
                                then byte_of (k - 32) e.permissions
                                else byte_of (k - 36) e.count)))))))

-- Byte `k` of the header: five words and the upper half of `total`, then zeros.
unfoldable pub header_byte : ℕ → ℕ → ℕ
header_byte count k =
    if ltb k 4
    then byte_of k blob_magic
    else (if ltb k 8
        then byte_of (k - 4) blob_version
        else (if ltb k 12
            then byte_of (k - 8) log_entries
            else (if ltb k 16
                then byte_of (k - 12) entry_size
                else (if ltb k 20
                    then byte_of (k - 16) (count % 2 ^ 32)
                    else (if ltb k 24 then byte_of (k - 20) (count / 2 ^ 32) else 0)))))

unfoldable pub blob_byte : Ledger → ℕ → ℕ
blob_byte l k =
    if ltb k blob_hdr
    then header_byte l.total k
    else (if ltb k blob_bytes
        then entry_byte (l.ring ((k - blob_hdr) / entry_size)) ((k - blob_hdr) % entry_size)
        else 0)

-- The bytes written, and the buffer.
unfoldable pub audit_serialize : Bool → ℕ → (ℕ → ℕ) → Ledger → ℕ × (ℕ → ℕ)
audit_serialize given buf_len buf l =
    if not given || ltb buf_len blob_bufsz
    then (0, buf)
    else (blob_bytes, λ k. if ltb k blob_bufsz then blob_byte l k else buf k)

-- Entry `i` of a buffer, its tick set to 0.
unfoldable pub entry_at : (ℕ → ℕ) → ℕ → Entry
entry_at buf i =
    let base = blob_hdr + entry_size * i in
    record {
      seq = read_bytes 8 (λ k. buf (base + 0 + k));
      tick = 0;
      event = record {
        kind = read_bytes 2 (λ k. buf (base + 20 + k));
        pid = read_bytes 4 (λ k. buf (base + 16 + k));
        verdict = read_bytes 2 (λ k. buf (base + 22 + k));
        resource_type = read_bytes 4 (λ k. buf (base + 24 + k));
        resource_id = read_bytes 4 (λ k. buf (base + 28 + k));
        permissions = read_bytes 4 (λ k. buf (base + 32 + k));
      };
      count = read_bytes 4 (λ k. buf (base + 36 + k));
    }

abbrev pub header_fits : (ℕ → ℕ) → Bool
header_fits buf =
    blob_get_u32 buf 0 == blob_magic
    && (blob_get_u32 buf 4 == blob_version
        && (blob_get_u32 buf 8 == log_entries && blob_get_u32 buf 12 == entry_size))

abbrev pub restored_total : (ℕ → ℕ) → ℕ
restored_total buf = blob_get_u32 buf 16 + blob_get_u32 buf 20 * 2 ^ 32

-- `true` stands for 0, and `false` for -1.
unfoldable pub audit_load : Bool → (ℕ → ℕ) → ℕ → Ledger → Bool × Ledger
audit_load given buf len l =
    if (not given || ltb len blob_bytes)
      || (not (header_fits buf) || ltb (2 ^ 48) (restored_total buf))
    then (false, l)
    else (
      true,
      record {
        ring = λ i. if ltb i log_entries then entry_at buf i else l.ring i;
        total = restored_total buf;
        coalesce_floor = restored_total buf;
      },
    )

unfoldable pub audit_ring_has_kind : ℕ → Ledger → Bool
audit_ring_has_kind kind l = elim (find_first log_entries 0 (λ i. (l.ring i).kind == kind)) [
  | none ↦ false
  | some i ↦ true
]
