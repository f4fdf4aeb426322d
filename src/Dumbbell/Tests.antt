-- ===== src/Dumbbell/Tests.antt =====
-- Runs of the scripts of lab4 on small inputs.
use computer_system24fall.Common.{◌≡◌, refl, true, false, List, [], ◌∷◌, arith}
use computer_system24fall.Dumbbell.Base.{base_main}
use computer_system24fall.Dumbbell.Traced.{Options, traced_main}
use computer_system24fall.Dumbbell.Log.{
  time_wait, another, cwnd_change, Change, write_fct, write_fct-last_end,
}
use computer_system24fall.Dumbbell.Flows.{SetsUp, main-SetsUp}

-- Flow 1 ends 2.5 seconds after the start; flow 0 never does.
abbrev changes : List Change
changes =
    record { now = 10000100; node = 0; old_state = another 2; new_state = another 4 }
    ∷ record { now = 12500000; node = 1; old_state = another 8; new_state = time_wait }
    ∷ []

write_fct-last_end_example : write_fct changes ≡ 0 ∷ 2500000 ∷ []
write_fct-last_end_example =
    write_fct-last_end changes ((omega arith, omega arith), ((omega arith, omega arith), tt))

abbrev options : Options
options = record {
  flow_size = λ i. 1000;
  knows_queue = true;
  knows_tcp = true;
  there = true;
  asserts = false;
  oks = false ∷ [];
}

main-SetsUp_example : SetsUp (traced_main options) 1000 1000 × SetsUp (base_main true true) 0 0
main-SetsUp_example = main-SetsUp options refl refl refl

cwnd_change_test :
    cwnd_change 10000100 14480 15928 [] ≡ record { at = 10000100; old = 10; new = 11 } ∷ []
unfolding cwnd_change
cwnd_change_test = refl
