-- ===== src/Dumbbell/Flows.antt =====
-- Both scripts of lab4: each flow has its receiver.
use computer_system24fall.Common.{
  ℕ, ◌≡◌, refl, sym, ap, subst, Bool, true, false, not, ◌&&◌, ◌||◌, List, [], ◌∷◌, ◌++◌, Option,
  none, some, leb, ◌==◌, if◌then◌else◌,
}
use computer_system24fall.Dumbbell.Calls.{
  Node, left, right, router, Wire, router_to_router, left_to_router, router_to_right, Call, connect,
  assign, new_network, install_sink, install_bulk, shell, Command, remove_dir, make_dir, make_pcap,
  make_cwnd, make_fct,
}
use computer_system24fall.Dumbbell.Base.{
  base_main, install_flows, install_bulk_send, set_protocol, create_nodes, connect_nodes,
  install_stacks, assign_addresses, set_defaults, install_queues, install_sinks,
  install_packet_sink, simulate,
}
use computer_system24fall.Dumbbell.Traced.{
  Options, install_traced_flows, install_traced, enable_pcaps, assemble, traced_main,
  make_directories, run_shell,
}

abbrev pub same_node : Node → Node → Bool
same_node (left i) (left j) = i == j
same_node (right i) (right j) = i == j
same_node (router i) (router j) = i == j
same_node m n = false

abbrev pub same_wire : Wire → Wire → Bool
same_wire router_to_router router_to_router = true
same_wire (left_to_router i) (left_to_router j) = i == j
same_wire (router_to_right i) (router_to_right j) = i == j
same_wire v w = false

-- The node of the device at the second place of a wire.
abbrev pub far_end : Wire → List Call → Option Node
far_end w [] = none
far_end w (connect rate delay v m n ∷ calls) = if same_wire w v then some n else far_end w calls
far_end w (c ∷ calls) = far_end w calls

abbrev pub assigned : Wire → List Call → Bool
assigned w [] = false
assigned w (assign v ∷ calls) = same_wire w v || assigned w calls
assigned w (c ∷ calls) = assigned w calls

-- A receiver of TCP on the node and the port, from no later than `start`.
abbrev pub has_sink : Option Node → ℕ → ℕ → List Call → Bool
has_sink none port start calls = false
has_sink (some n) port start [] = false
has_sink (some n) port start (install_sink m p name begin end_ ∷ calls) =
    (same_node n m && (port == p) && leb begin start) || has_sink (some n) port start calls
has_sink (some n) port start (c ∷ calls) = has_sink (some n) port start calls

-- Every flow goes to the address of a wire's second device, which has one, and the node there receives.
abbrev pub received : List Call → List Call → Bool
received all [] = true
received all (install_bulk n w place port name size start stop ∷ calls) =
    (place == 1) && assigned w all && has_sink (far_end w all) port start all && received all calls
received all (c ∷ calls) = received all calls

-- No network is assigned twice.
abbrev pub apart : Bool → List Call → Bool
apart fresh [] = true
apart fresh (assign w ∷ calls) = fresh && apart false calls
apart fresh (new_network ∷ calls) = apart true calls
apart fresh (c ∷ calls) = apart fresh calls

-- The flows, with their senders and sizes.
abbrev pub flows : List Call → List (Node × ℕ)
flows [] = []
flows (install_bulk n w place port name size start stop ∷ calls) = (n, size) ∷ flows calls
flows (c ∷ calls) = flows calls

-- A script that asks for two flows, of these sizes, which are received, on networks of their own.
abbrev pub SetsUp : Option (List Call) → ℕ → ℕ → Type 0
SetsUp none m n = ⊥
SetsUp (some calls) m n =
    (received calls calls ≡ true)
    × (apart true calls ≡ true)
    × (flows calls ≡ (left 0, m) ∷ (left 1, n) ∷ [])

shells : List Command → List Call
shells [] = []
shells (c ∷ commands) = shell c ∷ shells commands

run_shell-unchecked :
    (oks : List Bool) (commands : List Command)
    → run_shell false oks commands ≡ some (shells commands)
unfolding run_shell shells
run_shell-unchecked oks [] = refl
run_shell-unchecked [] (c ∷ commands) =
    ap (λ (o : Option (List Call)). elim o [ none ↦ none | some calls ↦ some (shell c ∷ calls) ])
      (run_shell-unchecked [] commands)
run_shell-unchecked (ok ∷ oks) (c ∷ commands) =
    ap
      (λ (o : Option (List Call)). elim o [
        | none ↦ none
        | some calls ↦ if false && not ok then none else some (shell c ∷ calls)
      ])
      (run_shell-unchecked oks commands)

assemble-SetsUp :
    (flow_size : ℕ → ℕ) (there : Bool) (oks : List Bool)
    → SetsUp (assemble flow_size (make_directories false oks there)) (flow_size 0) (flow_size 1)
unfolding make_directories shells assemble install_traced_flows install_traced set_protocol
    create_nodes connect_nodes install_stacks assign_addresses set_defaults install_queues
    install_sinks install_packet_sink enable_pcaps simulate
assemble-SetsUp flow_size there oks =
    subst (λ x. SetsUp (assemble flow_size x) (flow_size 0) (flow_size 1))
      (sym (run_shell-unchecked oks (commands there))) (by_directory there)
  where
    commands : Bool → List Command
    commands b =
        (if b then remove_dir ∷ [] else []) ++ make_dir ∷ make_pcap ∷ make_cwnd ∷ make_fct ∷ []

    by_directory :
        (b : Bool)
        → SetsUp (assemble flow_size (some (shells (commands b)))) (flow_size 0) (flow_size 1)
    by_directory true = (refl, refl, refl)
    by_directory false = (refl, refl, refl)

-- Both scripts, where ns-3 knows the types and assertions are not compiled in, whatever the shell does: they ask for two
-- flows, from left node i to the address of the second device of a wire whose second node receives on the flow's port
-- from the flow's start, and no two wires share a network. The flows of dumbbell.cc have the sizes given, those of
-- dumbbell-base.cc the size 0, which is no limit.
pub main-SetsUp :
    (o : Options)
    → o.knows_queue ≡ true
    → o.knows_tcp ≡ true
    → o.asserts ≡ false
    → SetsUp (traced_main o) (o.flow_size 0) (o.flow_size 1) × SetsUp (base_main true true) 0 0
unfolding traced_main base_main set_protocol create_nodes connect_nodes install_stacks
    assign_addresses set_defaults install_queues install_sinks install_packet_sink install_flows
    install_bulk_send simulate
main-SetsUp o queue tcp unchecked = (
  subst
      (λ q.
        SetsUp (if not q || not o.knows_tcp then none else calls o.asserts) (o.flow_size 0)
          (o.flow_size 1))
      (sym queue)
      (subst (λ t. SetsUp (if not t then none else calls o.asserts) (o.flow_size 0) (o.flow_size 1))
        (sym tcp)
        (subst (λ a. SetsUp (calls a) (o.flow_size 0) (o.flow_size 1)) (sym unchecked)
          (assemble-SetsUp o.flow_size o.there o.oks))),
  (refl, refl, refl),
)
  where
    calls : Bool → Option (List Call)
    calls a = assemble o.flow_size (make_directories a o.oks o.there)
