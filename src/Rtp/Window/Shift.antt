-- ===== src/Rtp/Window/Shift.antt =====
-- What update_window of lab2/src/util.c does to the window, independent of its loops.
use computer_system24fall.Common.{
  ℕ, zero, suc, ◌+◌, ◌-◌, ◌≤◌, ◌<◌, ◌≡◌, ◌≢◌, refl, sym, ap, ◌∙◌, ◌⊎◌, inl, inr, List, ◌++◌, arith,
  get_or, set, length, drop, replicate, length-set, length-drop, length-append, length-replicate,
  get_or-set_self, get_or-set_ne, get_or_at, le-cases, lt-cases, get_or-drop, get_or-append_left,
  get_or-append_right, get_or-replicate, get_or_ext,
}
use computer_system24fall.Rtp.Window.{run_from, move_down, clear_from, update_window}

-- `k` is the length of the run of marks that starts at `from`, within `left` places.
pub record IsRun (window : List ℕ) (from left k : ℕ) : Type 0 where
  pub from_le : from ≤ k
  pub within : k ≤ from + left
  pub on : (j : ℕ) → from ≤ j → j < k → get_or window j 0 ≢ 0
  pub stops : (k ≡ from + left) ⊎ (get_or window k 0 ≡ 0)

run_from-IsRun :
    (window : List ℕ) (from left : ℕ) → IsRun window from left (run_from window from left)
unfolding run_from
run_from-IsRun window from zero = record {
  from_le = omega arith;
  within = omega arith;
  on = λ j p q. absurd (omega arith);
  stops = inl (omega arith);
}
run_from-IsRun window from (suc left) =
    let rest = run_from-IsRun window (from + 1) left in
    record {
      from_le = ground (arith, rest.from_le);
      within = ground (arith, rest.within);
      on = λ j p q. ground (arith, rest.on j);
      stops = ground (arith, rest.stops);
    }

length-move_down :
    (left lind rind : ℕ) (window : List ℕ)
    → length (move_down window lind rind left) ≡ length window
unfolding move_down
length-move_down zero lind rind window = refl
length-move_down (suc left) lind rind window =
    length-move_down left (lind + 1) (rind + 1) (set window lind (get_or window rind 0))
    ∙ length-set window lind (get_or window rind 0)

length-clear_from :
    (left i : ℕ) (window : List ℕ) → length (clear_from window i left) ≡ length window
unfolding clear_from
length-clear_from zero i window = refl
length-clear_from (suc left) i window =
    length-clear_from left (i + 1) (set window i 0) ∙ length-set window i 0

get_or-move_down_kept :
    (left lind rind : ℕ) (window : List ℕ) (j : ℕ)
    → j < lind
    → get_or (move_down window lind rind left) j 0 ≡ get_or window j 0
unfolding move_down
get_or-move_down_kept zero lind rind window j h = refl
get_or-move_down_kept (suc left) lind rind window j h =
    get_or-move_down_kept left (lind + 1) (rind + 1) (set window lind (get_or window rind 0)) j
      (omega arith)
    ∙ get_or-set_ne window lind j (get_or window rind 0) 0 (λ e. omega arith)

-- Copying down by `gap` places, in place: no cell is read after it was overwritten.
get_or-move_down_moved :
    (left lind rind gap : ℕ) (window : List ℕ) (j : ℕ)
    → rind ≡ lind + gap
    → rind + left ≤ length window
    → lind ≤ j
    → j < lind + left
    → get_or (move_down window lind rind left) j 0 ≡ get_or window (j + gap) 0
unfolding move_down
get_or-move_down_moved zero lind rind gap window j e fits p q = absurd (omega arith)
get_or-move_down_moved (suc left) lind rind gap window j e fits p q =
    let v : ℕ = get_or window rind 0 in
    elim (le-cases lind j p) [
      | inl here ↦
          get_or-move_down_kept left (lind + 1) (rind + 1) (set window lind v) j (omega arith)
          ∙ get_or_at (set window lind v) j lind 0 (sym here)
          ∙ get_or-set_self window lind v 0 (omega arith)
          ∙ get_or_at window rind (j + gap) 0 (omega arith)
      | inr above ↦
          get_or-move_down_moved left (lind + 1) (rind + 1) gap (set window lind v) j (omega arith)
            (omega (arith, length-set window lind v)) (omega arith) (omega arith)
          ∙ get_or-set_ne window lind (j + gap) v 0 (λ same. omega arith)
    ]

get_or-clear_from_kept :
    (left i : ℕ) (window : List ℕ) (j : ℕ)
    → j < i
    → get_or (clear_from window i left) j 0 ≡ get_or window j 0
unfolding clear_from
get_or-clear_from_kept zero i window j h = refl
get_or-clear_from_kept (suc left) i window j h =
    get_or-clear_from_kept left (i + 1) (set window i 0) j (omega arith)
    ∙ get_or-set_ne window i j 0 0 (λ e. omega arith)

get_or-clear_from_cleared :
    (left i : ℕ) (window : List ℕ) (j : ℕ)
    → i + left ≤ length window
    → i ≤ j
    → j < i + left
    → get_or (clear_from window i left) j 0 ≡ 0
unfolding clear_from
get_or-clear_from_cleared zero i window j fits p q = absurd (omega arith)
get_or-clear_from_cleared (suc left) i window j fits p q = elim (le-cases i j p) [
  | inl here ↦
      get_or-clear_from_kept left (i + 1) (set window i 0) j (omega arith)
      ∙ get_or_at (set window i 0) j i 0 (sym here)
      ∙ get_or-set_self window i 0 0 (omega arith)
  | inr above ↦
      get_or-clear_from_cleared left (i + 1) (set window i 0) j
        (omega (arith, length-set window i 0)) (omega arith) (omega arith)
]

-- Both loops together slide the window down by `shift` and fill it up with zeros.
module _ (window : List ℕ) (left shift : ℕ) (size : length window ≡ left + shift) where
  abbrev moved : List ℕ
  moved = move_down window 0 shift left

  abbrev slid : List ℕ
  slid = clear_from moved left shift

  length-moved : length moved ≡ left + shift
  length-moved = length-move_down left 0 shift window ∙ size

  length-kept : length (drop shift window) ≡ left
  length-kept = omega (arith, length-drop shift window)

  slid-front : (i : ℕ) → i < left → get_or slid i 0 ≡ get_or (drop shift window) i 0
  slid-front i h =
      get_or-clear_from_kept shift left moved i h
      ∙ get_or-move_down_moved left 0 shift shift window i (omega arith) (omega arith) (omega arith)
          (omega arith)
      ∙ get_or_at window (i + shift) (shift + i) 0 (omega arith)
      ∙ sym (get_or-drop shift window i 0)

  slid-back : (i : ℕ) → left ≤ i → i < left + shift → get_or slid i 0 ≡ 0
  slid-back i p q = get_or-clear_from_cleared shift left moved i (omega (arith, length-moved)) p q

  zeros-back : (i : ℕ) → left ≤ i → get_or (drop shift window ++ replicate shift 0) i 0 ≡ 0
  zeros-back i p =
      get_or_at (drop shift window ++ replicate shift 0) i (length (drop shift window) + (i - left))
        0 (omega (arith, length-kept))
      ∙ get_or-append_right (drop shift window) (replicate shift 0) (i - left) 0
      ∙ get_or-replicate shift 0 (i - left)

  slide : slid ≡ drop shift window ++ replicate shift 0
  slide = get_or_ext 0 slid (drop shift window ++ replicate shift 0) same_length λ i h.
      elim (lt-cases i left) [
        | inl front ↦
            slid-front i front
            ∙ sym (
                get_or-append_left (drop shift window) (replicate shift 0) i 0
                  (omega (arith, length-kept)))
        | inr back ↦
            slid-back i back (omega (arith, length-clear_from shift left moved, length-moved))
            ∙ sym (zeros-back i back)
      ]
    where
      same_length : length slid ≡ length (drop shift window ++ replicate shift 0)
      same_length = omega (
        arith,
        length-clear_from shift left moved,
        length-moved,
        length-kept,
        length-append (drop shift window) (replicate shift 0),
        length-replicate shift (zero),
      )

-- With an index in range, the call marks that place, returns the length of the run of marks at the
-- window's start, and slides the window down by so many places, with zeros shifted in.
pub update_window_lem :
    (window : List ℕ) (wsize ind : ℕ)
    → length window ≡ wsize
    → ind < wsize
    → let k = (update_window window wsize ind).1 in
      IsRun (set window ind 1) 0 wsize k
      × ((update_window window wsize ind).0 ≡ drop k (set window ind 1) ++ replicate k 0)
unfolding update_window
update_window_lem window wsize ind size h = (run, slides)
  where
    marked : List ℕ
    marked = set window ind 1

    run : IsRun marked 0 wsize (run_from marked 0 wsize)
    run = run_from-IsRun marked 0 wsize

    k : ℕ
    k = run_from marked 0 wsize

    double : wsize - (wsize - k) ≡ k
    double = omega (arith, run.within)

    slides :
        clear_from (move_down marked 0 k (wsize - k)) (wsize - k) (wsize - (wsize - k))
        ≡ drop k marked ++ replicate k 0
    slides =
        ap (clear_from (move_down marked 0 k (wsize - k)) (wsize - k)) double
        ∙ slide marked (wsize - k) k (omega (arith, length-set window ind 1, run.within))
