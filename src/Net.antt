-- ===== src/Net.antt =====
-- net_udp.c and net_tcp.c: what the death of a process does to its sockets and connections. Of a socket
-- and of a connection only the fields that this reads are kept; the protocols are not modelled.
use quantum_os.Prelude.{
  ℕ, Bool, true, false, not, ◌&&◌, ◌||◌, Option, none, some, ltb, ◌==◌, if◌then◌else◌, find_first,
}
use quantum_os.Process.{Processes}
use quantum_os.Scheduler.{Scheduler, scheduler_net_kick}

-- UDP_SOCK_MAX, UDP_SLOT_ACTIVE, UDP_SLOT_CLOSING, TCPS_CLOSED and TCP_MAX_LISTENERS
abbrev pub udp_sock_max : ℕ
udp_sock_max = 4

abbrev pub udp_slot_active : ℕ
udp_slot_active = 1

abbrev pub udp_slot_closing : ℕ
udp_slot_closing = 2

abbrev pub tcps_closed : ℕ
tcps_closed = 0

abbrev pub tcp_max_listeners : ℕ
tcp_max_listeners = 4

-- `udp_sock_t`
pub record UdpSock : Type 0 where
  pub state : ℕ
  pub owner_pid : ℕ

-- `tcp_conn_t`
pub record TcpConn : Type 0 where
  pub state : ℕ
  pub owner_pid : ℕ
  pub connect_req : Bool
  pub listen_req : Bool
  pub abort_req : Bool

-- `udp_socks[4]`, `tcb` and `tcb_srv[4]`
pub record Net : Type 0 where
  pub udp_socks : ℕ → UdpSock
  pub tcb : TcpConn
  pub tcb_srv : ℕ → TcpConn

abbrev pub is_udp_of : ℕ → UdpSock → Bool
is_udp_of pid s = s.state == udp_slot_active && s.owner_pid == pid

abbrev pub is_client_of : ℕ → TcpConn → Bool
is_client_of pid c = (not (c.state == tcps_closed) || c.connect_req) && c.owner_pid == pid

abbrev pub is_server_of : ℕ → TcpConn → Bool
is_server_of pid c = (not (c.state == tcps_closed) || c.listen_req) && c.owner_pid == pid

abbrev pub found : Option ℕ → Bool
found none = false
found (some i) = true

-- With the kick of the net thread, if anything was posted to it.
abbrev pub kicked : Bool → Scheduler → Processes → Processes
kicked posted s ps = if posted then scheduler_net_kick s ps else ps

unfoldable pub net_udp_cleanup : ℕ → Scheduler → Processes → Net → Processes × Net
net_udp_cleanup pid s ps n =
    let posted = found (find_first udp_sock_max 0 (λ i. is_udp_of pid (n.udp_socks i))) in
    (
      kicked posted s ps,
      record n {
        udp_socks = λ i.
            let u = n.udp_socks i in
            if ltb i udp_sock_max && is_udp_of pid u
            then record u { state = udp_slot_closing }
            else u;
      },
    )

unfoldable pub net_tcp_cleanup : ℕ → Scheduler → Processes → Net → Processes × Net
net_tcp_cleanup pid s ps n =
    let client = n.tcb in
    let posted =
      is_client_of pid client
      || found (find_first tcp_max_listeners 0 (λ i. is_server_of pid (n.tcb_srv i))) in
    (
      kicked posted s ps,
      record n {
        tcb = if is_client_of pid client then record client { abort_req = true } else client;
        tcb_srv = λ i.
            let c = n.tcb_srv i in
            if ltb i tcp_max_listeners && is_server_of pid c
            then record c { abort_req = true }
            else c;
      },
    )
