-- ===== src/Audit/Kind.antt =====
-- audit.h: the record kinds. A zeroed slot of the ring is of kind `empty`.
use quantum_os.Prelude.{ℕ}

abbrev pub empty : ℕ
empty = 0

abbrev pub grant : ℕ
grant = 1

abbrev pub deny : ℕ
deny = 2

abbrev pub spawn : ℕ
spawn = 3

abbrev pub mdeny : ℕ
mdeny = 4

abbrev pub quota : ℕ
quota = 5

abbrev pub cpukill : ℕ
cpukill = 6

abbrev pub revoke : ℕ
revoke = 7

abbrev pub reap : ℕ
reap = 8

abbrev pub qsubmit : ℕ
qsubmit = 9

abbrev pub unlink : ℕ
unlink = 10

abbrev pub egress : ℕ
egress = 11
