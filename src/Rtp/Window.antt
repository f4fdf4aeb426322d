-- ===== src/Rtp/Window.antt =====
-- lab2/src/util.c: update_window, on an array of `wsize` acknowledgement marks, in place.
pub mod Shift
pub mod Marks
pub mod First
use computer_system24fall.Common.{ℕ, zero, suc, ◌+◌, ◌-◌, List, ◌==◌, if◌then◌else◌, get_or, set}

-- `while (shift < wsize && window[shift]) ++shift`, with the rounds that are left of `wsize`.
unfoldable pub run_from : List ℕ → ℕ → ℕ → ℕ
run_from window shift zero = shift
run_from window shift (suc left) =
    let on = run_from window (shift + 1) left in if get_or window shift 0 == 0 then shift else on

-- `while (rind < wsize) window[lind++] = window[rind++]`.
unfoldable pub move_down : List ℕ → ℕ → ℕ → ℕ → List ℕ
move_down window lind rind zero = window
move_down window lind rind (suc left) =
    move_down (set window lind (get_or window rind 0)) (lind + 1) (rind + 1) left

-- `memset(window + i, 0, left * sizeof(int))`.
unfoldable pub clear_from : List ℕ → ℕ → ℕ → List ℕ
clear_from window i zero = window
clear_from window i (suc left) = clear_from (set window i 0) (i + 1) left

-- The window after the call, and the returned shift.
unfoldable pub update_window : List ℕ → ℕ → ℕ → List ℕ × ℕ
unfolding run_from move_down clear_from
update_window window wsize ind =
    let marked = set window ind 1 in
    let shift = run_from marked 0 wsize in
    let lind = wsize - shift in
    let moved = move_down marked 0 shift (wsize - shift) in
    (clear_from moved lind (wsize - lind), shift)
