-- ===== src/Egress/Parse.antt =====
-- egress.c: the parser of a specification.
use quantum_os.Prelude.{
  ℕ, zero, suc, ◌+◌, ◌-◌, ◌*◌, ◌%◌, ◌^◌, Bool, true, false, not, ◌&&◌, ◌||◌, List, [], ◌∷◌, ◌++◌,
  Option, none, some, ltb, ◌==◌, if◌then◌else◌, length, and_then,
}
use quantum_os.Egress.State.{
  max_allow, max_listen, host_max, ticks_per_s, proto_udp, proto_tcp, Ip, Allow, Grant, no_allow,
  no_terms, is_digit,
}

-- `t`, `a`, ... as they stand in the fields' names, and `:` `/` `,` `;` `.` `*`
abbrev pub ttl_field : List ℕ
ttl_field = 116 ∷ 116 ∷ 108 ∷ 61 ∷ []

abbrev pub bytes_field : List ℕ
bytes_field = 98 ∷ 121 ∷ 116 ∷ 101 ∷ 115 ∷ 61 ∷ []

abbrev pub allow_field : List ℕ
allow_field = 97 ∷ 108 ∷ 108 ∷ 111 ∷ 119 ∷ 61 ∷ []

abbrev pub listen_field : List ℕ
listen_field = 108 ∷ 105 ∷ 115 ∷ 116 ∷ 101 ∷ 110 ∷ 61 ∷ []

abbrev pub udp_word : List ℕ
udp_word = 117 ∷ 100 ∷ 112 ∷ []

abbrev pub tcp_word : List ℕ
tcp_word = 116 ∷ 99 ∷ 112 ∷ []

abbrev pub colon : ℕ
colon = 58

abbrev pub slash : ℕ
slash = 47

abbrev pub comma : ℕ
comma = 44

abbrev pub semicolon : ℕ
semicolon = 59

abbrev pub dot : ℕ
dot = 46

abbrev pub star : ℕ
star = 42

-- What follows a prefix.
unfoldable pub after_word : List ℕ → List ℕ → Option (List ℕ)
after_word [] s = some s
after_word (c ∷ w) [] = none
after_word (c ∷ w) (x ∷ s) = let rest = after_word w s in if x == c then rest else none

abbrev pub chosen {ℓ} : {A : Type ℓ} → Option (List ℕ) → (List ℕ → Option A) → Option A → Option A
chosen (some r) f other = f r
chosen none f other = other

-- What is read behind the word `w`, or else.
abbrev pub on_word {ℓ} : {A : Type ℓ} → List ℕ → List ℕ → (List ℕ → Option A) → Option A → Option A
on_word w s f other = chosen (after_word w s) f other

-- The digits at the front, onto `v`, in 64 bits.
unfoldable pub digits : ℕ → List ℕ → ℕ × List ℕ
digits v [] = (v, [])
digits v (c ∷ s) =
    let rest = digits ((v * 10 + (c - 48)) % 2 ^ 64) s in if is_digit c then rest else (v, c ∷ s)

unfoldable pub parse_u64 : List ℕ → Option (ℕ × List ℕ)
parse_u64 [] = none
parse_u64 (c ∷ s) = if is_digit c then some (digits 0 (c ∷ s)) else none

-- A number from `lo` to `hi`.
unfoldable pub number : ℕ → ℕ → List ℕ → Option (ℕ × List ℕ)
number lo hi s =
    and_then (parse_u64 s) (λ (v, r). if ltb v lo || ltb hi v then none else some (v, r))

-- One of the first three numbers of a dotted quad.
abbrev pub octet_dot : List ℕ → Option (ℕ × List ℕ)
octet_dot s =
    and_then (number 0 255 s) (λ (v, r). and_then (after_word (dot ∷ []) r) (λ r'. some (v, r')))

unfoldable pub parse_ip : List ℕ → Option (Ip × List ℕ)
parse_ip s = and_then (octet_dot s) (λ (a, s1). and_then (octet_dot s1) (λ (b, s2).
    and_then (octet_dot s2) (λ (c, s3).
      and_then (number 0 255 s3) (λ (d, s4). some (record { a = a; b = b; c = c; d = d }, s4)))))

abbrev pub ends_entry : List ℕ → Bool
ends_entry [] = true
ends_entry (c ∷ s) = c == comma || c == semicolon

-- The bytes before a `:`, `,` or `;`, and the rest.
unfoldable pub host_name : List ℕ → List ℕ × List ℕ
host_name [] = ([], [])
host_name (c ∷ s) =
    let (name, rest) = host_name s in
    if c == colon || (c == comma || c == semicolon) then ([], c ∷ s) else (c ∷ name, rest)

-- The destination of an entry, with what follows its `:`.
unfoldable pub parse_host : List ℕ → Option (Allow × List ℕ)
parse_host s =
    let (name, rest) = host_name s in
    if ltb host_max (length name) || length name == 0
    then none
    else and_then (after_word (colon ∷ []) rest) (λ r. some (record no_allow { host = name }, r))

abbrev pub as_ip : Ip → List ℕ → Option (Allow × List ℕ)
as_ip ip rest =
    and_then (after_word (colon ∷ []) rest)
      (λ r. some (record no_allow { has_ip = true; ip = ip }, r))

abbrev pub or_else : Option (Allow × List ℕ) → Option (Allow × List ℕ) → Option (Allow × List ℕ)
or_else (some x) y = some x
or_else none y = y

unfoldable pub parse_dest : List ℕ → Option (Allow × List ℕ)
parse_dest s = or_else (and_then (parse_ip s) (λ (ip, rest). as_ip ip rest)) (parse_host s)

abbrev pub parse_proto : List ℕ → Option (ℕ × List ℕ)
parse_proto s =
    on_word udp_word s (λ r. some (proto_udp, r))
      (on_word tcp_word s (λ r. some (proto_tcp, r)) none)

abbrev pub is_wide : List ℕ → Bool
is_wide [] = false
is_wide (c ∷ s) = c == star && ends_entry s

abbrev pub rest_of : List ℕ → List ℕ
rest_of [] = []
rest_of (c ∷ s) = s

-- One entry of the allowlist, and what follows it.
unfoldable pub parse_allow : List ℕ → Option (Allow × List ℕ)
parse_allow s =
    if is_wide s
    then some (record no_allow { any = true }, rest_of s)
    else and_then (parse_dest s) (λ (a, s1). and_then (number 1 65535 s1) (λ (p, s2).
      and_then (after_word (slash ∷ []) s2) (λ s3.
        and_then (parse_proto s3) (λ (q, s4).
          if ends_entry s4 then some (record a { port = p; proto = q }, s4) else none))))

abbrev pub positive : List ℕ → Option (ℕ × List ℕ)
positive s = and_then (parse_u64 s) (λ (v, r). if v == 0 then none else some (v, r))

-- The end of a field.
abbrev pub ends_field : List ℕ → Bool
ends_field [] = true
ends_field (c ∷ s) = c == semicolon

abbrev pub skip_comma : List ℕ → List ℕ
skip_comma [] = []
skip_comma (c ∷ s) = if c == comma then s else c ∷ s

-- The entries of a field, with room for `n` more, behind those before them.
unfoldable pub entries {ℓ} :
    {A : Type ℓ} → (List ℕ → Option (A × List ℕ)) → ℕ → List A → List ℕ → Option (List A × List ℕ)
entries parse zero xs s = if ends_field s then some (xs, s) else none
entries parse (suc n) xs s =
    if ends_field s
    then some (xs, s)
    else and_then (parse s) (λ (x, r). entries parse n (xs ++ x ∷ []) (skip_comma r))

-- `have_ttl`, `have_bytes` and `g`.
pub record Terms : Type 0 where
  pub have_ttl : Bool
  pub have_bytes : Bool
  pub grant : Grant

abbrev pub set_ttl : Terms → ℕ → Terms
set_ttl t v =
    let g = t.grant in
    record t { have_ttl = true; grant = record g { ttl_ticks = v * ticks_per_s % 2 ^ 64 } }

abbrev pub set_bytes : Terms → ℕ → Terms
set_bytes t v =
    let g = t.grant in record t { have_bytes = true; grant = record g { byte_budget = v } }

abbrev pub set_allow : Terms → List Allow → Terms
set_allow t xs = let g = t.grant in record t { grant = record g { allow = xs } }

abbrev pub set_listen : Terms → List ℕ → Terms
set_listen t xs = let g = t.grant in record t { grant = record g { listen = xs } }

-- A list goes on where an earlier field of its name left it.
unfoldable pub list_field : Terms → List ℕ → Option (Terms × List ℕ)
list_field t s =
    let g = t.grant in
    on_word allow_field s
      (λ r.
        and_then (entries parse_allow (max_allow - length g.allow) g.allow r)
          (λ (xs, r'). some (set_allow t xs, r')))
      (on_word listen_field s
        (λ r.
          and_then (entries (number 1 65535) (max_listen - length g.listen) g.listen r)
            (λ (xs, r'). some (set_listen t xs, r')))
        none)

unfoldable pub parse_field : Terms → List ℕ → Option (Terms × List ℕ)
parse_field t s =
    on_word ttl_field s (λ r. and_then (positive r) (λ (v, r'). some (set_ttl t v, r')))
      (on_word bytes_field s (λ r. and_then (positive r) (λ (v, r'). some (set_bytes t v, r')))
        (list_field t s))

-- Past the `;` between two fields.
abbrev pub next_field : List ℕ → Option (List ℕ)
next_field [] = some []
next_field (c ∷ s) = if c == semicolon then some s else none

unfoldable pub one_field : Terms → List ℕ → Option (Terms × List ℕ)
one_field t s =
    and_then (parse_field t s) (λ (t', r). and_then (next_field r) (λ r'. some (t', r')))

-- The loop over the fields. The outer option is `none` when the fuel ran out, the inner one when the
-- specification is refused.
unfoldable pub parse_fields : ℕ → Terms → List ℕ → Option (Option Terms)
parse_fields zero t s = none
parse_fields (suc n) t [] = some (some t)
parse_fields (suc n) t (c ∷ s) = elim (one_field t (c ∷ s)) [
  | none ↦ some none
  | some (t', r) ↦ parse_fields n t' r
]

abbrev pub start : Terms
start = record { have_ttl = false; have_bytes = false; grant = no_terms }

abbrev pub required : Option Terms → Option Grant
required none = none
required (some t) = if not t.have_ttl || not t.have_bytes then none else some t.grant

unfoldable pub parse_grant : List ℕ → Option (Option Grant)
parse_grant s = and_then (parse_fields (suc (length s)) start s) (λ t. some (required t))
