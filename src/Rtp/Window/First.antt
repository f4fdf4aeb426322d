-- ===== src/Rtp/Window/First.antt =====
-- update_window of lab2/src/util.c on a window without marks, for its first place.
use computer_system24fall.Common.{
  ℕ, ◌≤◌, ◌<◌, ◌≡◌, ◌∙◌, inl, inr, List, arith, eq-cases, lt-cases, ap, get_or, set, length,
  get_or-set_self,
}
use computer_system24fall.Rtp.Window.{update_window}
use computer_system24fall.Rtp.Window.Shift.{IsRun, update_window_lem}
use computer_system24fall.Rtp.Window.Marks.{IsSlid, update_window-IsSlid}

-- A window of `wsize` places, none of them marked.
pub record IsClear (wsize : ℕ) (window : List ℕ) : Type 0 where
  pub size : length window ≡ wsize
  pub none : (i : ℕ) → get_or window i 0 ≡ 0

-- The first place is shifted out at once, and no mark is left.
pub update_window-first :
    (window : List ℕ) (wsize : ℕ)
    → IsClear wsize window
    → 0 < wsize
    → ((update_window window wsize 0).1 ≡ 1) × IsClear wsize (update_window window wsize 0).0
update_window-first window wsize clear w = (
  one,
  record {
    size = slid.size;
    none = λ i. elim (eq-cases (get_or (update_window window wsize 0).0 i 0) 0) [
      | inl off ↦ off
      | inr on ↦ absurd (omega (arith, slid.kept i on, one))
    ];
  },
)
  where
    slid : IsSlid wsize (λ i. i ≡ 0) (update_window window wsize 0)
    slid =
        update_window-IsSlid window wsize 0 (λ i. i ≡ 0) clear.size w
          (λ i on. absurd (on (clear.none i))) (omega arith)

    k : ℕ
    k = (update_window window wsize 0).1

    run : IsRun (set window 0 1) 0 wsize k
    run = (update_window_lem window wsize 0 clear.size w).0

    at_most : k ≤ 1
    at_most = elim (lt-cases 1 k) [
      | inl more ↦ absurd (omega (arith, slid.out 1 more))
      | inr few ↦ few
    ]

    marked : k ≡ 0 → get_or (set window 0 1) k 0 ≡ 1
    marked e =
        ap (λ (i : ℕ). get_or (set window 0 1) i 0) e
        ∙ get_or-set_self window 0 1 0 (omega (arith, clear.size))

    one : k ≡ 1
    one = elim (eq-cases k 0) [
      | inl none ↦ elim run.stops [
        | inl all ↦ omega (arith, all, none)
        | inr off ↦ absurd (omega (arith, marked none, off))
      ]
      | inr some ↦ omega (arith, at_most)
    ]
