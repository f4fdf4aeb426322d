-- ===== src/Dumbbell/Base.antt =====
-- lab4/dumbbell-base.cc.
use computer_system24fall.Common.{
  ℕ, ◌+◌, ◌%◌, ◌^◌, Bool, not, List, [], ◌∷◌, ◌++◌, Option, none, some, if◌then◌else◌, ◌||◌,
}
use computer_system24fall.Dumbbell.Calls.{
  Node, left, right, router, Wire, router_to_router, left_to_router, router_to_right, Name,
  tcp_socket_factory, tcp_linux_reno, fifo_queue_disc, tcp_classic_recovery, dynamic_queue_limits,
  recovery_type, socket_type, snd_buf_size, rcv_buf_size, initial_cwnd, del_ack_count, segment_size,
  sack_on, max_packets, Call, set_default, create, connect, install_stack, assign, new_network,
  populate_routing, set_root_queue, set_queue_limits, uninstall_queue, install_queue, install_sink,
  install_bulk, stop_at, run, destroy, for_loop,
}

abbrev pub n1 : ℕ
n1 = 2

abbrev pub n2 : ℕ
n2 = 2

abbrev pub segment : ℕ
segment = 1448

abbrev pub start_time : ℕ
start_time = 10000000000

abbrev pub stop_time : ℕ
stop_time = 60000000000

-- `uint16_t port = 50000 + i`.
abbrev pub port_of : ℕ → ℕ
port_of i = (50000 + i) % 2 ^ 16

unfoldable pub install_bulk_send : Node → Wire → ℕ → ℕ → Name → List Call
install_bulk_send node wire place port socket_factory =
    install_bulk node wire place port socket_factory 0 start_time stop_time ∷ []

unfoldable pub install_packet_sink : Node → ℕ → Name → List Call
install_packet_sink node port socket_factory =
    install_sink node port socket_factory start_time stop_time ∷ []

unfoldable pub set_protocol : List Call
set_protocol =
    set_default (recovery_type tcp_classic_recovery) ∷ set_default (socket_type tcp_linux_reno) ∷ []

unfoldable pub create_nodes : List Call
create_nodes =
    for_loop 0 2 (λ i. create (router i) ∷ [])
    ++ for_loop 0 n1 (λ i. create (left i) ∷ [])
    ++ for_loop 0 n2 (λ i. create (right i) ∷ [])

unfoldable pub connect_nodes : List Call
connect_nodes =
    connect 1 10 router_to_router (router 0) (router 1)
      ∷ for_loop 0 n1 (λ i. connect 10 1 (left_to_router i) (left i) (router 0) ∷ [])
    ++ for_loop 0 n2 (λ i. connect 10 1 (router_to_right i) (router 1) (right i) ∷ [])

unfoldable pub install_stacks : List Call
install_stacks =
    for_loop 0 n1 (λ i. install_stack (left i) ∷ [])
    ++ for_loop 0 n2 (λ i. install_stack (right i) ∷ [])
    ++ for_loop 0 2 (λ i. install_stack (router i) ∷ [])

unfoldable pub assign_addresses : List Call
assign_addresses =
    assign router_to_router
      ∷ new_network
      ∷ for_loop 0 n1 (λ i. assign (left_to_router i) ∷ new_network ∷ [])
    ++ for_loop 0 n2 (λ i. assign (router_to_right i) ∷ new_network ∷ [])
    ++ populate_routing ∷ []

unfoldable pub set_defaults : List Call
set_defaults =
    set_default (snd_buf_size (2 ^ 20))
    ∷ set_default (rcv_buf_size (2 ^ 20))
    ∷ set_default (initial_cwnd 10)
    ∷ set_default (del_ack_count 1)
    ∷ set_default (segment_size segment)
    ∷ set_default sack_on
    ∷ set_default (max_packets fifo_queue_disc 100)
    ∷ []

unfoldable pub install_queues : List Call
install_queues =
    set_root_queue fifo_queue_disc
    ∷ uninstall_queue (router 0) 0
    ∷ install_queue (router 0) 0
    ∷ set_queue_limits dynamic_queue_limits
    ∷ []

unfoldable pub install_sinks : List Call
unfolding install_packet_sink
install_sinks = for_loop 0 n2 (λ i. install_packet_sink (right i) (port_of i) tcp_socket_factory)

unfoldable pub simulate : List Call
simulate = stop_at stop_time ∷ run ∷ destroy ∷ []

-- The flows.
unfoldable pub install_flows : List Call
unfolding install_bulk_send
install_flows =
    for_loop 0 n1
      (λ i. install_bulk_send (left i) (router_to_right i) 1 (port_of i) tcp_socket_factory)

-- `none` if ns-3 does not know the queue discipline or the variant of TCP: the script aborts.
unfoldable pub base_main : Bool → Bool → Option (List Call)
unfolding set_protocol create_nodes connect_nodes install_stacks assign_addresses set_defaults
    install_queues install_sinks install_flows simulate
base_main knows_queue knows_tcp =
    if not knows_queue || not knows_tcp
    then none
    else some (
        set_protocol ++ create_nodes ++ connect_nodes ++ install_stacks ++ assign_addresses
        ++ set_defaults ++ install_queues ++ install_sinks ++ install_flows ++ simulate)
