-- ===== src/Rtp/Window/Marks.antt =====
-- What the marks of update_window in lab2/src/util.c stand for, before and after the window slides.
use computer_system24fall.Common.{
  ℕ, zero, ◌+◌, ◌≤◌, ◌<◌, ◌≡◌, ◌≢◌, ap, subst, ◌∙◌, inl, inr, List, ◌++◌, arith, eq-cases, lt-cases,
  get_or, set, length, drop, replicate, length-set, length-drop, length-append, length-replicate,
  get_or-set_ne, get_or-drop, get_or-append_left, get_or-append_from, get_or-replicate,
}
use computer_system24fall.Rtp.Window.{update_window}
use computer_system24fall.Rtp.Window.Shift.{IsRun, update_window_lem}

-- If each mark stands for a fact about its place, then after a call for `ind` the places that were
-- shifted out have it, and each mark that is left stands for it at its place before the shift.
pub record IsSlid (wsize : ℕ) (P : ℕ → Type 0) (r : List ℕ × ℕ) : Type 0 where
  pub size : length r.0 ≡ wsize
  pub shift_le : r.1 ≤ wsize
  pub out : (i : ℕ) → i < r.1 → P i
  pub kept : (i : ℕ) → get_or r.0 i 0 ≢ 0 → P (r.1 + i)

module _ (window : List ℕ) (wsize ind : ℕ) (P : ℕ → Type 0) (size : length window ≡ wsize)
    (in_range : ind < wsize) (old : (i : ℕ) → get_or window i 0 ≢ 0 → P i) (new : P ind) where
  marked : (i : ℕ) → get_or (set window ind 1) i 0 ≢ 0 → P i
  marked i on = elim (eq-cases ind i) [
    | inl same ↦ subst P same new
    | inr other ↦ old i (λ off. on (get_or-set_ne window ind i 1 0 other ∙ off))
  ]

  -- A mark in the slid window is one of those before the shift.
  unslid :
      (k i : ℕ)
      → k ≤ wsize
      → get_or (drop k (set window ind 1) ++ replicate k 0) i 0 ≢ 0
      → get_or (set window ind 1) (k + i) 0 ≢ 0
  unslid k i h on off = elim (lt-cases i (length (drop k (set window ind 1)))) [
    | inl front ↦ on (
        get_or-append_left (drop k (set window ind 1)) (replicate k 0) i 0 front
        ∙ get_or-drop k (set window ind 1) i 0
        ∙ off)
    | inr back ↦ on (
        get_or-append_from (drop k (set window ind 1)) (replicate k 0) i 0 back
        ∙ get_or-replicate k 0 _)
  ]

  pub update_window-IsSlid : IsSlid wsize P (update_window window wsize ind)
  update_window-IsSlid = record {
    size =
        ap length spec.1
        ∙ omega (
          arith,
          length-append (drop k (set window ind 1)) (replicate k 0),
          length-drop k (set window ind 1),
          length-replicate k zero,
          length-set window ind 1,
          spec.0.within,
        );
    shift_le = omega (arith, spec.0.within);
    out = λ i h. marked i (spec.0.on i (omega arith) h);
    kept = λ i on. marked (k + i) (
        unslid k i (omega (arith, spec.0.within))
          (subst (λ (t : List ℕ). get_or t i 0 ≢ 0) spec.1 on));
  }
    where
      k : ℕ
      k = (update_window window wsize ind).1

      spec :
          IsRun (set window ind 1) 0 wsize k
          × ((update_window window wsize ind).0 ≡ drop k (set window ind 1) ++ replicate k 0)
      spec = update_window_lem window wsize ind size in_range
