-- ===== src/Dumbbell/Traced.antt =====
-- lab4/dumbbell.cc: the script with traces of the windows and of the flows' ends.
use computer_system24fall.Common.{
  ℕ, ◌+◌, Bool, not, List, [], ◌∷◌, ◌++◌, Option, none, some, if◌then◌else◌, ◌||◌, ◌&&◌,
}
use computer_system24fall.Dumbbell.Calls.{
  Node, left, Wire, router_to_router, left_to_router, router_to_right, Name, tcp_socket_factory,
  Command, remove_dir, make_dir, make_pcap, make_cwnd, make_fct, Call, shell, enable_pcap,
  install_bulk, schedule_state, schedule_cwnd, for_loop,
}
use computer_system24fall.Dumbbell.Base.{
  n1, start_time, stop_time, port_of, set_protocol, create_nodes, connect_nodes, install_stacks,
  assign_addresses, set_defaults, install_queues, install_sinks, simulate,
}

-- InstallBulkSend: the application, and the two traces, which are connected one nanosecond after it starts, when the
-- sockets are there.
unfoldable pub install_traced : Node → Wire → ℕ → ℕ → Name → ℕ → ℕ → List Call
install_traced node wire place port socket_factory flow_size cwnd_window =
    install_bulk node wire place port socket_factory flow_size start_time stop_time
    ∷ schedule_state (start_time + 1) node 0
    ∷ schedule_cwnd (start_time + 1) node cwnd_window
    ∷ []

unfoldable pub install_traced_flows : (ℕ → ℕ) → List Call
unfolding install_traced
install_traced_flows flow_size = for_loop 0 n1 (λ i.
    install_traced (left i) (router_to_right i) 1 (port_of i) tcp_socket_factory (flow_size i) 0)

-- Each command, with whether it succeeds in order, which it does beyond the list; an assertion, where they are
-- compiled in, aborts if one does not.
unfoldable pub run_shell : Bool → List Bool → List Command → Option (List Call)
run_shell asserts oks [] = some []
run_shell asserts [] (c ∷ commands) = elim (run_shell asserts [] commands) [
  | none ↦ none
  | some calls ↦ some (shell c ∷ calls)
]
run_shell asserts (ok ∷ oks) (c ∷ commands) = elim (run_shell asserts oks commands) [
  | none ↦ none
  | some calls ↦ if asserts && not ok then none else some (shell c ∷ calls)
]

unfoldable pub make_directories : Bool → List Bool → Bool → Option (List Call)
unfolding run_shell
make_directories asserts oks there =
    run_shell asserts oks
      ((if there then remove_dir ∷ [] else []) ++ make_dir ∷ make_pcap ∷ make_cwnd ∷ make_fct ∷ [])

unfoldable pub enable_pcaps : List Call
enable_pcaps =
    enable_pcap router_to_router 0 ∷ for_loop 0 n1 (λ i. enable_pcap (left_to_router i) 1 ∷ [])

-- The sizes of the flows are what the command line gives, or what stood in the array.
pub record Options : Type 0 where
  pub flow_size : ℕ → ℕ
  pub knows_queue : Bool
  pub knows_tcp : Bool
  pub there : Bool
  pub asserts : Bool
  pub oks : List Bool

-- The calls of main, with those that make its directories, if these do not abort.
unfoldable pub assemble : (ℕ → ℕ) → Option (List Call) → Option (List Call)
unfolding set_protocol create_nodes connect_nodes install_stacks assign_addresses set_defaults
    install_queues install_sinks install_traced_flows enable_pcaps simulate
assemble flow_size none = none
assemble flow_size (some directories) = some (
    set_protocol
    ++ create_nodes
    ++ connect_nodes
    ++ directories
    ++ enable_pcaps
    ++ install_stacks
    ++ assign_addresses
    ++ set_defaults
    ++ install_queues
    ++ install_sinks
    ++ install_traced_flows flow_size
    ++ simulate)

unfoldable pub traced_main : Options → Option (List Call)
unfolding assemble make_directories
traced_main o =
    if not o.knows_queue || not o.knows_tcp
    then none
    else assemble o.flow_size (make_directories o.asserts o.oks o.there)
