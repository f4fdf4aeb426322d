-- ===== src/Dumbbell/Calls.antt =====
-- What the scripts of lab4 ask of ns-3, in order; ns-3 itself is not modelled.
use computer_system24fall.Common.{ℕ, zero, suc, ◌+◌, List, [], ◌++◌}

-- leftNodes.Get(i), rightNodes.Get(i), routers.Get(i).
pub data Node : Type 0 where
  left right router : ℕ → Node

-- routerToRouter, leftToRouter[i], routerToRight[i], and the addresses assigned to them.
pub data Wire : Type 0 where
  router_to_router : Wire
  left_to_router router_to_right : ℕ → Wire

-- The names of types that the scripts use.
pub data Name : Type 0 where
  tcp_socket_factory tcp_linux_reno fifo_queue_disc tcp_classic_recovery dynamic_queue_limits : Name

-- The keys of Config::SetDefault with their values.
pub data Setting : Type 0 where
  recovery_type socket_type : Name → Setting
  snd_buf_size rcv_buf_size initial_cwnd del_ack_count segment_size : ℕ → Setting
  sack_on : Setting
  max_packets : Name → ℕ → Setting

-- The commands of system, by the directory below `dir`.
pub data Command : Type 0 where
  remove_dir make_dir make_pcap make_cwnd make_fct : Command

-- One call. Times are in nanoseconds, rates in Mbit/s, delays in milliseconds. A device is a wire with 0
-- or 1, its place in the container; so is an address.
pub data Call : Type 0 where
  set_default : Setting → Call
  create : Node → Call
  connect : ℕ → ℕ → Wire → Node → Node → Call
  shell : Command → Call
  enable_pcap : Wire → ℕ → Call
  install_stack : Node → Call
  assign : Wire → Call
  new_network populate_routing : Call
  set_root_queue set_queue_limits : Name → Call
  uninstall_queue install_queue : Node → ℕ → Call
  install_sink : Node → ℕ → Name → ℕ → ℕ → Call
  install_bulk : Node → Wire → ℕ → ℕ → Name → ℕ → ℕ → ℕ → Call
  schedule_state schedule_cwnd : ℕ → Node → ℕ → Call
  stop_at : ℕ → Call
  run destroy : Call

-- The calls of `for (i = from; i < from + n; i++)`.
abbrev pub for_loop : ℕ → ℕ → (ℕ → List Call) → List Call
for_loop from zero body = []
for_loop from (suc n) body = body from ++ for_loop (from + 1) n body
