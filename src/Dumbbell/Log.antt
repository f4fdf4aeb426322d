-- ===== src/Dumbbell/Log.antt =====
-- lab4/dumbbell.cc: CwndChange, StateChange, and what main writes at the end. Times are in microseconds.
use mathlib.Core.Bool.{true≢false}
use computer_system24fall.Common.{
  ℕ, ◌+◌, ◌-◌, ◌/◌, ◌%◌, ◌^◌, ◌≤◌, ◌<◌, ◌≡◌, refl, sym, ap, ap₂, ◌∙◌, Bool, true, false, ◌&&◌, List,
  [], ◌∷◌, ◌++◌, Option, none, some, arith, ◌==◌, ==_iff, if◌then◌else◌, All, length, length-set,
  get_or, get_or-set_self, get_or-set_ne, set,
}
use computer_system24fall.Dumbbell.Base.{segment, start_time}

-- TcpSocket::TcpStates_t, of which the script names one.
pub data TcpState : Type 0 where
  time_wait : TcpState
  another : ℕ → TcpState

-- A line of a file of cwnd: the time, and both windows in segments.
pub record CwndLine : Type 0 where
  pub at : ℕ
  pub old : ℕ
  pub new : ℕ

-- The file of one node.
unfoldable pub cwnd_change : ℕ → ℕ → ℕ → List CwndLine → List CwndLine
cwnd_change now old_cwnd new_cwnd file =
    file ++ record { at = now; old = old_cwnd / segment; new = new_cwnd / segment } ∷ []

-- The array fct; an index out of range changes nothing.
unfoldable pub state_change : ℕ → ℕ → TcpState → TcpState → List ℕ → List ℕ
state_change now node_relative old_state time_wait fct =
    set fct node_relative ((now + 2 ^ 64 - start_time / 1000) % 2 ^ 32)
state_change now node_relative old_state (another n) fct = fct

pub record Change : Type 0 where
  pub now : ℕ
  pub node : ℕ
  pub old_state : TcpState
  pub new_state : TcpState

-- The calls of StateChange during the simulation.
unfoldable pub run_changes : List Change → List ℕ → List ℕ
unfolding state_change
run_changes [] fct = fct
run_changes (c ∷ changes) fct =
    run_changes changes (state_change c.now c.node c.old_state c.new_state fct)

-- fct is zero before the simulation. The lines of fct.dat.
unfoldable pub write_fct : List Change → List ℕ
unfolding run_changes
write_fct changes =
    let fct = run_changes changes (0 ∷ 0 ∷ []) in get_or fct 0 0 ∷ get_or fct 1 0 ∷ []

-- The time at which the flow of a node entered TIME_WAIT for the last time.
abbrev pub ends : TcpState → Bool
ends time_wait = true
ends (another n) = false

abbrev pub last_end : ℕ → List Change → Option ℕ
last_end i [] = none
last_end i (c ∷ changes) = elim (last_end i changes) [
  | none ↦ if (c.node == i) && ends c.new_state then some c.now else none
  | some t ↦ some t
]

-- A flow that does not end has the time 0.
abbrev pub completion : ℕ → Option ℕ → ℕ
completion before none = before
completion before (some t) = t - start_time / 1000

-- After the start, and within 2 ^ 32 microseconds of it.
abbrev pub InTime : Change → Type 0
InTime c = (start_time / 1000 ≤ c.now) × (c.now < start_time / 1000 + 2 ^ 32)

length-state_change :
    (now node : ℕ) (old_state new_state : TcpState) (fct : List ℕ)
    → length (state_change now node old_state new_state fct) ≡ length fct
unfolding state_change
length-state_change now node old_state time_wait fct = length-set fct node _
length-state_change now node old_state (another n) fct = refl

step :
    (now node i : ℕ) (old_state new_state : TcpState) (fct : List ℕ)
    → i < length fct
    → start_time / 1000 ≤ now
    → now < start_time / 1000 + 2 ^ 32
    → get_or (state_change now node old_state new_state fct) i 0
      ≡ completion (get_or fct i 0) (if (node == i) && ends new_state then some now else none)
unfolding state_change
step now node i old_state time_wait fct inside after before = by_node (node == i) refl
  where
    time : ℕ
    time = (now + 2 ^ 64 - start_time / 1000) % 2 ^ 32

    by_node :
        (same : Bool)
        → (node == i) ≡ same
        → get_or (set fct node time) i 0
          ≡ completion (get_or fct i 0) (if same && true then some now else none)
    by_node true e =
        ap (λ (k : ℕ). get_or (set fct k time) i 0) ((==_iff node i).0 e)
        ∙ get_or-set_self fct i time 0 inside
        ∙ omega (arith, after, before)
    by_node false e =
        get_or-set_ne fct node i time 0 (λ q. true≢false (sym ((==_iff node i).1 q) ∙ e))
step now node i old_state (another n) fct inside after before = ground arith

abbrev Recorded : (i : ℕ) → List ℕ → List Change → Type 0
Recorded i fct changes =
    get_or (run_changes changes fct) i 0 ≡ completion (get_or fct i 0) (last_end i changes)

run_changes-last_end :
    (i : ℕ) (changes : List Change) (fct : List ℕ)
    → i < length fct
    → All InTime changes
    → Recorded i fct changes
unfolding run_changes
run_changes-last_end i [] fct inside times = refl
run_changes-last_end i (c ∷ changes) fct inside times =
    run_changes-last_end i changes (state_change c.now c.node c.old_state c.new_state fct)
      (omega (arith, length-state_change c.now c.node c.old_state c.new_state fct)) times.1
    ∙ by_rest (last_end i changes)
  where
    by_rest :
        (rest : Option ℕ)
        → completion (get_or (state_change c.now c.node c.old_state c.new_state fct) i 0) rest
          ≡ completion (get_or fct i 0) (elim rest [
            | none ↦ if (c.node == i) && ends c.new_state then some c.now else none
            | some t ↦ some t
          ])
    by_rest none = step c.now c.node i c.old_state c.new_state fct inside times.0.0 times.0.1
    by_rest (some t) = refl

-- The file fct.dat: a line for each flow, the time from the start to the last time that it entered TIME_WAIT, and 0 for
-- a flow that never did; the changes come after the start and within 2 ^ 32 microseconds of it.
pub write_fct-last_end :
    (changes : List Change)
    → All InTime changes
    → write_fct changes ≡ completion 0 (last_end 0 changes) ∷ completion 0 (last_end 1 changes) ∷ []
unfolding write_fct
write_fct-last_end changes times =
    ap₂ (λ (x y : ℕ). x ∷ y ∷ []) (run_changes-last_end 0 changes (0 ∷ 0 ∷ []) (omega arith) times)
      (run_changes-last_end 1 changes (0 ∷ 0 ∷ []) (omega arith) times)
