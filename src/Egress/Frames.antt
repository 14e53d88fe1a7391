-- ===== src/Egress/Frames.antt =====
-- netdev.c: the frames that a grant carries.
use quantum_os.Prelude.{ℕ, Bool, Option, none, some, if◌then◌else◌, ◌==◌, not, ◌||◌}
use quantum_os.Audit.{Ledger}
use quantum_os.Egress.State.{Egress}
use quantum_os.Egress.Grant.{egress_active, egress_account}

-- The driver is `none` where none is bound that transmits, or says whether it took the frame. The
-- result is how many bytes went out.
unfoldable pub netdev_transmit : ℕ → Option Bool → ℕ → Egress → Ledger → ℕ × Egress × Ledger
netdev_transmit now none len s l = (0, s, l)
netdev_transmit now (some taken) len s l =
    let (active, s', l') = egress_active now s l in
    if not active || not taken
    then (0, s', l')
    else (let (s'', l'') = egress_account now len s' l' in (len, s'', l''))

-- `n` bytes came out of the driver, 0 where there is no frame or no driver. The result is how many are
-- handed on.
unfoldable pub netdev_receive : ℕ → ℕ → Egress → Ledger → ℕ × Egress × Ledger
netdev_receive now n s l =
    if n == 0
    then (0, s, l)
    else (let (active, s', l') = egress_active now s l in
        if not active
        then (0, s', l')
        else (let (s'', l'') = egress_account now n s' l' in (n, s'', l'')))
