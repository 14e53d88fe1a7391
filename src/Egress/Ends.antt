-- ===== src/Egress/Ends.antt =====
-- The parser of egress.c ends.
use quantum_os.Prelude.{
  ℕ, zero, suc, ◌+◌, ◌-◌, ◌*◌, ◌%◌, ◌^◌, ◌≤◌, ◌<◌, ◌≡◌, refl, sym, subst, true, List, [], ◌∷◌, ◌++◌,
  Option, none, some, inl, inr, arith, Bool-cases, Option-cases, length, and_then, ◌==◌, ltb, ◌||◌,
}
use quantum_os.Egress.State.{Allow, Grant, max_allow, max_listen, is_digit, no_allow, host_max}
use quantum_os.Egress.Parse.{
  after_word, digits, parse_u64, number, positive, parse_ip, host_name, parse_host, parse_dest,
  parse_allow, entries, Terms, list_field, parse_field, one_field, next_field, parse_fields,
  parse_grant, octet_dot, dot, colon, comma, semicolon, skip_comma, ends_field, or_else, as_ip,
  is_wide, rest_of, ends_entry, parse_proto, on_word, chosen, start, required, slash,
}
use quantum_os.Egress.Shorter.{
  Leaves, Within, Skips, within, weaken, shorter, chain_strict, chain, skip, either_Within,
  either_Leaves, length-after_word, after_word-Skips,
}

length-digits : (v : ℕ) (s : List ℕ) → length (digits v s).1 ≤ length s
unfolding digits
length-digits v [] = omega arith
length-digits v (c ∷ s) = elim (Bool-cases (is_digit c)) [
  | inl more ↦ ground (arith, more, length-digits ((v * 10 + (c - 48)) % 2 ^ 64) s)
  | inr stop ↦ ground (arith, stop)
]

parse_u64-Leaves : (s : List ℕ) → Leaves (length s) (parse_u64 s)
unfolding parse_u64 digits
parse_u64-Leaves [] = omega arith
parse_u64-Leaves (c ∷ s) = elim (Bool-cases (is_digit c)) [
  | inl more ↦
      let rest = length-digits ((0 * 10 + (c - 48)) % 2 ^ 64) s in ground (arith, more, rest)
  | inr stop ↦ ground (arith, stop)
]

number-Leaves : (lo hi : ℕ) (s : List ℕ) → Leaves (length s) (number lo hi s)
unfolding number
number-Leaves lo hi s =
    chain_strict (length s) (parse_u64 s) _ (parse_u64-Leaves s)
      (λ v r. either_Within _ (ltb v lo || ltb hi v) none (some (v, r)) (omega arith) (omega arith))

positive-Leaves : (s : List ℕ) → Leaves (length s) (positive s)
positive-Leaves s =
    chain_strict (length s) (parse_u64 s) _ (parse_u64-Leaves s)
      (λ v r. either_Within _ (v == 0) none (some (v, r)) (omega arith) (omega arith))

number-Within : (lo hi : ℕ) (s : List ℕ) → Within (length s) (number lo hi s)
number-Within lo hi s = weaken (length s) (number lo hi s) (number-Leaves lo hi s)

octet-Leaves : (s : List ℕ) → Leaves (length s) (octet_dot s)
octet-Leaves s = chain_strict (length s) (number 0 255 s) _ (number-Leaves 0 255 s) (λ v r.
    skip (length r) (after_word (dot ∷ []) r) _ (after_word-Skips (dot ∷ []) r) (λ r'. omega arith))

octet-Within : (s : List ℕ) → Within (length s) (octet_dot s)
octet-Within s = weaken (length s) (octet_dot s) (octet-Leaves s)

parse_ip-Leaves : (s : List ℕ) → Leaves (length s) (parse_ip s)
unfolding parse_ip
parse_ip-Leaves s = chain_strict (length s) (octet_dot s) _ (octet-Leaves s) (λ a s1.
    chain (length s1) (octet_dot s1) _ (octet-Within s1) (λ b s2.
      chain (length s2) (octet_dot s2) _ (octet-Within s2) (λ c s3.
        chain (length s3) (number 0 255 s3) _ (number-Within 0 255 s3) (λ d s4. omega arith))))

length-host_name : (s : List ℕ) → length (host_name s).0 + length (host_name s).1 ≡ length s
unfolding host_name
length-host_name [] = refl
length-host_name (c ∷ s) = elim (Bool-cases (c == colon || (c == comma || c == semicolon))) [
  | inl stop ↦ ground (arith, stop)
  | inr more ↦ ground (arith, more, length-host_name s)
]

or_else-Leaves :
    (n : ℕ) (x y : Option (Allow × List ℕ)) → Leaves n x → Leaves n y → Leaves n (or_else x y)
or_else-Leaves n none y h k = k
or_else-Leaves n (some x) y h k = h

colon-Within {ℓ} :
    {A : Type ℓ} (x : A) (s : List ℕ)
    → Within (length s) (and_then (after_word (colon ∷ []) s) (λ r. some (x, r)))
colon-Within x s =
    skip (length s) (after_word (colon ∷ []) s) _ (after_word-Skips (colon ∷ []) s)
      (λ r. omega arith)

parse_host-Leaves : (s : List ℕ) → Leaves (length s) (parse_host s)
unfolding parse_host
parse_host-Leaves s =
    let (name, rest) = host_name s in
    let host = record no_allow { host = name } in
    either_Leaves _ (ltb host_max (length name) || length name == 0) none
      (and_then (after_word (colon ∷ []) rest) (λ r. some (host, r))) (λ bad. omega arith)
      (λ good.
        shorter (and_then (after_word (colon ∷ []) rest) (λ r. some (host, r)))
          (ground (arith, good, length-host_name s)) (colon-Within host rest))

parse_dest-Leaves : (s : List ℕ) → Leaves (length s) (parse_dest s)
unfolding parse_dest
parse_dest-Leaves s =
    or_else-Leaves (length s) (and_then (parse_ip s) (λ (ip, rest). as_ip ip rest)) (parse_host s)
      (chain_strict (length s) (parse_ip s) _ (parse_ip-Leaves s)
        (λ ip rest. colon-Within (record no_allow { has_ip = true; ip = ip }) rest))
      (parse_host-Leaves s)

on_word-Leaves {ℓ} :
    {A : Type ℓ} (c : ℕ) (w s : List ℕ) (f : List ℕ → Option (A × List ℕ))
    (other : Option (A × List ℕ))
    → ((r : List ℕ) → Within (length r) (f r))
    → Leaves (length s) other
    → Leaves (length s) (on_word (c ∷ w) s f other)
on_word-Leaves c w s f other h k = elim (Option-cases (after_word (c ∷ w) s)) [
  | inl missing ↦ subst (λ o. Leaves (length s) (chosen o f other)) {x = none} (sym missing) k
  | inr (r, found) ↦
      subst (λ o. Leaves (length s) (chosen o f other)) {x = some r} (sym found)
        (shorter (f r) (omega (arith, length-after_word (c ∷ w) s r found)) (h r))
]

parse_proto-Leaves : (s : List ℕ) → Leaves (length s) (parse_proto s)
parse_proto-Leaves s =
    on_word-Leaves 117 (100 ∷ 112 ∷ []) s _ _ (λ r. omega arith)
      (on_word-Leaves 116 (99 ∷ 112 ∷ []) s _ none (λ r. omega arith) (omega arith))

rest_of-shorter : (s : List ℕ) → is_wide s ≡ true → length (rest_of s) < length s
rest_of-shorter [] h = absurd (ground arith)
rest_of-shorter (c ∷ s) h = omega arith

parse_allow-Leaves : (s : List ℕ) → Leaves (length s) (parse_allow s)
unfolding parse_allow
parse_allow-Leaves s =
    either_Leaves _ (is_wide s) _ _ (λ wide. rest_of-shorter s wide)
      (λ one. chain_strict (length s) (parse_dest s) _ (parse_dest-Leaves s) (λ a s1.
        chain (length s1) (number 1 65535 s1) _ (number-Within 1 65535 s1) (λ p s2.
          skip (length s2) (after_word (slash ∷ []) s2) _ (after_word-Skips (slash ∷ []) s2) (λ s3.
            chain (length s3) (parse_proto s3) _
              (weaken (length s3) (parse_proto s3) (parse_proto-Leaves s3))
              (λ q s4. either_Within _ (ends_entry s4) _ none (omega arith) (omega arith))))))

skip_comma_le : (s : List ℕ) → length (skip_comma s) ≤ length s
skip_comma_le [] = omega arith
skip_comma_le (c ∷ s) = elim (Bool-cases (c == comma)) [
  | inl here ↦ ground (arith, here)
  | inr gone ↦ ground (arith, gone)
]

entries-Within {ℓ} :
    {A : Type ℓ} (parse : List ℕ → Option (A × List ℕ)) (n : ℕ) (xs : List A) (s : List ℕ)
    → ((s' : List ℕ) → Leaves (length s') (parse s'))
    → Within (length s) (entries parse n xs s)
unfolding entries
entries-Within parse zero xs s h =
    either_Within _ (ends_field s) (some (xs, s)) none (omega arith) (omega arith)
entries-Within parse (suc n) xs s h =
    either_Within _ (ends_field s) (some (xs, s)) _ (omega arith) (
      chain (length s) (parse s) _ (weaken (length s) (parse s) (h s)) (λ x r.
        within (length (skip_comma r)) (length r) _ (skip_comma_le r)
          (entries-Within parse n (xs ++ x ∷ []) (skip_comma r) h)))

list_field-Leaves : (t : Terms) (s : List ℕ) → Leaves (length s) (list_field t s)
unfolding list_field
list_field-Leaves t s =
    let g = t.grant in
    on_word-Leaves 97 (108 ∷ 108 ∷ 111 ∷ 119 ∷ 61 ∷ []) s _ _
      (λ r.
        chain (length r) (entries parse_allow (max_allow - length g.allow) g.allow r) _
          (entries-Within parse_allow (max_allow - length g.allow) g.allow r parse_allow-Leaves)
          (λ xs r'. omega arith))
      (on_word-Leaves 108 (105 ∷ 115 ∷ 116 ∷ 101 ∷ 110 ∷ 61 ∷ []) s _ none
        (λ r.
          chain (length r) (entries (number 1 65535) (max_listen - length g.listen) g.listen r) _
            (entries-Within (number 1 65535) (max_listen - length g.listen) g.listen r
              (number-Leaves 1 65535))
            (λ xs r'. omega arith))
        (omega arith))

parse_field-Leaves : (t : Terms) (s : List ℕ) → Leaves (length s) (parse_field t s)
unfolding parse_field
parse_field-Leaves t s =
    on_word-Leaves 116 (116 ∷ 108 ∷ 61 ∷ []) s _ _
      (λ r.
        chain (length r) (positive r) _ (weaken (length r) (positive r) (positive-Leaves r))
          (λ v r'. omega arith))
      (on_word-Leaves 98 (121 ∷ 116 ∷ 101 ∷ 115 ∷ 61 ∷ []) s _ _
        (λ r.
          chain (length r) (positive r) _ (weaken (length r) (positive r) (positive-Leaves r))
            (λ v r'. omega arith))
        (list_field-Leaves t s))

next_field-Skips : (s : List ℕ) → Skips (length s) (next_field s)
next_field-Skips [] = omega arith
next_field-Skips (c ∷ s) = elim (Bool-cases (c == semicolon)) [
  | inl here ↦ subst (Skips (suc (length s))) {x = some s} (ground (arith, here)) (omega arith)
  | inr gone ↦ subst (Skips (suc (length s))) {x = none} (ground (arith, gone)) (omega arith)
]

one_field-Leaves : (t : Terms) (s : List ℕ) → Leaves (length s) (one_field t s)
unfolding one_field
one_field-Leaves t s =
    chain_strict (length s) (parse_field t s) _ (parse_field-Leaves t s)
      (λ t' r. skip (length r) (next_field r) _ (next_field-Skips r) (λ r'. omega arith))

-- With more fuel than bytes the loop over the fields gives an answer.
fields_return :
    (n : ℕ) (t : Terms) (s : List ℕ)
    → length s < n
    → (o : Option Terms) × (parse_fields n t s ≡ some o)
unfolding parse_fields
fields_return zero t s h = absurd (omega arith)
fields_return (suc n) t [] h = (some t, refl)
fields_return (suc n) t (c ∷ s) h = elim (Option-cases (one_field t (c ∷ s))) [
  | inl refused ↦ (none, ground (arith, refused))
  | inr ((t', r), got) ↦
      let fewer : length r < suc (length s) =
        subst (Leaves (suc (length s))) {y = some (t', r)} got (one_field-Leaves t (c ∷ s)) in
      let (o, rest) = fields_return n t' r (omega arith) in (o, ground (arith, got, rest))
]

-- The parser gives an answer on every specification: the loop over its fields, which the model bounds
-- by one more than the bytes, ends.
pub parse_grant_returns : (s : List ℕ) → (o : Option Grant) × (parse_grant s ≡ some o)
unfolding parse_grant
parse_grant_returns s =
    let (t, done) = fields_return (suc (length s)) start s (omega arith) in
    (required t, ground (arith, done))
