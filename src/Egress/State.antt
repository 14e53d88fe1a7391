-- ===== src/Egress/State.antt =====
-- egress.c: the grant, the statics and the bytes that a specification is made of. A string is the
-- list of its bytes before the terminating zero.
use quantum_os.Prelude.{ℕ, Bool, true, false, ◌&&◌, List, [], ◌∷◌, Option, leb, ◌==◌, if◌then◌else◌}

-- MAX_ALLOW, MAX_LISTEN, HOST_MAX, TICKS_PER_S, EGRESS_KEY_HEX and EGRESS_SPEC_MAX
abbrev pub max_allow : ℕ
max_allow = 8

abbrev pub max_listen : ℕ
max_listen = 8

abbrev pub host_max : ℕ
host_max = 63

abbrev pub ticks_per_s : ℕ
ticks_per_s = 100

abbrev pub key_hex : ℕ
key_hex = 16

abbrev pub spec_max : ℕ
spec_max = 255

-- EGRESS_PROTO_UDP, EGRESS_PROTO_TCP and DEVICE_ID_NET
abbrev pub proto_udp : ℕ
proto_udp = 17

abbrev pub proto_tcp : ℕ
proto_tcp = 6

abbrev pub device_id_net : ℕ
device_id_net = 0x8139

-- The EGRESS_OK and EGRESS_E_* verdicts
pub data Verdict : Type 0 where
  ok no_grant expired budget dest port listen : Verdict

-- The GRANT_* rows and the OFFER_* reasons
pub data ReceiptRow : Type 0 where
  given ran_out spent refused : ReceiptRow

pub data Reason : Type 0 where
  no_key bad_key shape : Reason

-- `uint8_t ip[4]`
pub record Ip : Type 0 where
  pub a : ℕ
  pub b : ℕ
  pub c : ℕ
  pub d : ℕ

-- `allow_t`
pub record Allow : Type 0 where
  pub any : Bool
  pub has_ip : Bool
  pub ip : Ip
  pub port : ℕ
  pub proto : ℕ
  pub host : List ℕ

-- `grant_t`. An array with its count is the list of the entries in use.
pub record Grant : Type 0 where
  pub ttl_ticks : ℕ
  pub byte_budget : ℕ
  pub allow : List Allow
  pub listen : List ℕ

-- The offer mailbox: the reason for which an offer is refused, or the specification.
pub data Offer : Type 0 where
  bad : Reason → Offer
  spec : List ℕ → Offer

-- The statics. `pending` is `none` while `offer_pending` is 0.
pub record Egress : Type 0 where
  pub configured : Bool
  pub over : Bool
  pub start_tick : ℕ
  pub bytes_used : ℕ
  pub live : Grant
  pub key_set : Bool
  pub key : List ℕ
  pub pending : Option Offer

abbrev pub no_ip : Ip
no_ip = record { a = 0; b = 0; c = 0; d = 0 }

-- What `zero_bytes` leaves.
abbrev pub no_allow : Allow
no_allow = record { any = false; has_ip = false; ip = no_ip; port = 0; proto = 0; host = [] }

abbrev pub no_terms : Grant
no_terms = record { ttl_ticks = 0; byte_budget = 0; allow = []; listen = [] }

abbrev pub ip4_eq : Ip → Ip → Bool
ip4_eq x y = x.a == y.a && (x.b == y.b && (x.c == y.c && x.d == y.d))

unfoldable pub str_eq : List ℕ → List ℕ → Bool
str_eq [] [] = true
str_eq [] (y ∷ t) = false
str_eq (x ∷ s) [] = false
str_eq (x ∷ s) (y ∷ t) = let rest = str_eq s t in if x == y then rest else false

abbrev pub is_digit : ℕ → Bool
is_digit c = leb 48 c && leb c 57
