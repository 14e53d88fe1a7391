-- ===== src/Ipc/Names.antt =====
-- A port is found again by the name it was created with, if the name fits.
use quantum_os.Prelude.{
  if◌then◌else◌, ltb, ℕ, zero, suc, ◌+◌, ◌%◌, ◌^◌, ◌≤◌, ◌<◌, ◌≡◌, ◌≢◌, refl, sym, ◌∙◌, ap, Bool,
  true, false, not, ◌&&◌, none, some, List, [], ◌∷◌, length, ◌==◌, update, find_first,
  find_first-some, find_first-none, find_first-at, inl, inr, arith, Bool-cases, Option-cases,
  ==_refl,
}
use quantum_os.Ipc.Queue.{success, not_found}
use quantum_os.Ipc.State.{
  Ipc, max_ports, name_size, is_closed, str_equal, copied, find_port_by_name,
}
use quantum_os.Ipc.Ports.{ipc_port_create, ipc_port_lookup, opened, free_port}

str_equal_refl : (s : List ℕ) → str_equal s s ≡ true
unfolding str_equal
str_equal_refl [] = refl
str_equal_refl (c ∷ s) = ground (arith, ==_refl c, str_equal_refl s)

str_equal-length : (a b : List ℕ) → str_equal a b ≡ true → length a ≡ length b
unfolding str_equal
str_equal-length [] [] h = refl
str_equal-length [] (y ∷ b) h = absurd (ground arith)
str_equal-length (x ∷ a) [] h = absurd (ground arith)
str_equal-length (x ∷ a) (y ∷ b) h = elim (Bool-cases (x == y)) [
  | inl same ↦ ap suc (str_equal-length a b (ground (arith, same)))
  | inr other ↦ absurd (ground (arith, other))
]

copied_whole : (n : ℕ) (s : List ℕ) → length s ≤ n → copied n s ≡ s
unfolding copied
copied_whole zero [] h = refl
copied_whole zero (c ∷ s) h = absurd (omega arith)
copied_whole (suc n) [] h = refl
copied_whole (suc n) (c ∷ s) h = ap (λ t. c ∷ t) (copied_whole n s (omega arith))

length-copied : (n : ℕ) (s : List ℕ) → length (copied n s) ≤ n
unfolding copied
length-copied zero s = omega arith
length-copied (suc n) [] = omega arith
length-copied (suc n) (c ∷ s) = omega (arith, length-copied n s)

abbrev named : List ℕ → Ipc → ℕ → Bool
named name s i = not (is_closed (s.ports i).state) && str_equal (s.ports i).name name

-- The state after a port was created in slot `i`.
abbrev with_port : ℕ → ℕ → List ℕ → Ipc → Ipc
with_port current i name s = record s {
  ports = update s.ports i (opened s.next_port_id current name);
  next_port_id = (s.next_port_id + 1) % 2 ^ 32;
}

-- A creation that succeeds found no port of the name, and took the first closed slot.
created :
    (current : ℕ) (name : List ℕ) (s : Ipc) {id : ℕ} {s' : Ipc}
    → ipc_port_create current (some name) true s ≡ (success, some id, s')
    → (i : ℕ) × (find_port_by_name name s ≡ none)
      × (i < max_ports)
      × (id ≡ s.next_port_id)
      × (with_port current i name s ≡ s')
unfolding ipc_port_create
created current name s {id} {s'} e = elim (Bool-cases s.ipc_initialized) [
  | inr off ↦ absurd (ground (arith, off))
  | inl on ↦ elim (Option-cases (find_port_by_name name s)) [
    | inr (j, known) ↦ absurd (ground (arith, on, known))
    | inl new ↦ elim (Option-cases (free_port s)) [
      | inl full ↦ absurd (ground (arith, on, new, full))
      | inr (i, free) ↦
          let (closed_, lo, hi) =
            find_first-some max_ports 0 (λ (k : ℕ). is_closed (s.ports k).state) {k = i} free in
          (i, new, omega arith, ground (arith, on, new, free), ground (arith, on, new, free))
    ]
  ]
]

module _ (current : ℕ) (name : List ℕ) (s : Ipc) (i : ℕ) (lt : i < max_ports)
    (new : find_port_by_name name s ≡ none) where
  abbrev after : Ipc
  after = with_port current i name s

  others : (j : ℕ) → j < max_ports → i ≢ j → named name after j ≡ false
  unfolding find_port_by_name
  others j lo ne =
      ground (arith, find_first-none max_ports 0 (named name s) j new (omega arith) (omega arith))

  found_again : length name < name_size → find_port_by_name name after ≡ some i
  unfolding find_port_by_name
  found_again short =
      find_first-at max_ports 0 (named name after) i
        (ground (arith, copied_whole 63 name (omega arith), str_equal_refl name)) (omega arith)
        (omega arith) (λ j lo hi. others j (omega arith) (omega arith))

  lost : name_size ≤ length name → find_port_by_name name after ≡ none
  unfolding find_port_by_name
  lost long = elim (Option-cases (find_first max_ports 0 (named name after))) [
    | inl missed ↦ missed
    | inr (j, hit) ↦
        let (is, lo, hi) = find_first-some max_ports 0 (named name after) {k = j} hit in
        elim (Bool-cases (i == j)) [
          | inr other ↦ absurd (ground (arith, others j (omega arith) (ground (arith, other)), is))
          | inl here ↦
              let q : i ≡ j = ground (arith, here) in
              let same : str_equal (copied 63 name) name ≡ true = ground (arith, is, here) in
              absurd
                (omega (arith, str_equal-length (copied 63 name) name same, length-copied 63 name))
        ]
  ]

-- A port that was created under a name of at most 63 bytes is found under that name, with the number
-- that its creator was given. One that was created under a longer name is not found under it: the
-- name is cut on the way in and compared whole.
pub port_lookup-create :
    (current : ℕ) (name : List ℕ) (s : Ipc) {id : ℕ} {s' : Ipc}
    → ipc_port_create current (some name) true s ≡ (success, some id, s')
    → ipc_port_lookup (some name) true s'
      ≡ (if ltb (length name) name_size then (success, some id) else (not_found, none))
unfolding ipc_port_lookup
port_lookup-create current name s {id} {s'} e =
    let (i, new, lt, is, made) = created current name s e in
    ap (λ w. ipc_port_lookup (some name) true w) (sym made)
    ∙ elim (Bool-cases (ltb (length name) name_size)) [
      | inl short ↦
          let found = found_again current name s i lt new (ground (arith, short)) in
          ground (arith, short, found, is)
      | inr long ↦
          let gone = lost current name s i lt new (ground (arith, long)) in
          ground (arith, long, gone)
    ]
