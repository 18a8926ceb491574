-- ===== src/Util/Context/Tests.antt =====
-- Runs of the window, and the conditions of its theorems.
use april_ann.Prelude.{ℕ, ◌+◌, ◌<◌, ◌≡◌, refl, true, some, arith}
use april_ann.Util.Context.{
  Context, make, insert, place_elem, append_elem, shift, end_input, move_down, repeat_elem,
}
use april_ann.Util.Context.Window.{IsWindow, make-IsWindow, insert-IsWindow}
use april_ann.Util.Context.End.{Shifted, shifts, shifts_correct, last_is_skipped}

abbrev letters : ℕ → ℕ
letters i = 65 + i

-- The window of the source's example after two of the letters.
abbrev two_in : Context ℕ
two_in = (insert (insert (make 1 2) 65).1 66).1

two_in-IsWindow : IsWindow letters two_in
unfolding insert make
two_in-IsWindow =
    (insert-IsWindow letters (insert (make 1 2) 65).1
      (insert-IsWindow letters (make 1 2) (make-IsWindow letters 1 2)).1).1

insert-IsWindow_example : ((insert two_in 67).0 ≡ true) × IsWindow letters (insert two_in 67).1
unfolding insert make
insert-IsWindow_example = insert-IsWindow letters two_in two_in-IsWindow

shifts_correct_example : Shifted letters two_in 1 (shifts 2 (end_input two_in))
unfolding insert make
shifts_correct_example = shifts_correct letters two_in 1 two_in-IsWindow (omega arith)

-- Three letters in a window with four before and two after: the third is current at no ready state.
abbrev three_in : Context ℕ
three_in = (insert (insert (insert (make 4 2) 65).1 66).1 67).1

three_in-IsWindow : IsWindow letters three_in
unfolding insert make
three_in-IsWindow =
    (insert-IsWindow letters _
      (insert-IsWindow letters _
        (insert-IsWindow letters (make 4 2) (make-IsWindow letters 4 2)).1).1).1

last_is_skipped_example :
    (m : ℕ) × ((shifts 2 (end_input three_in)).vec 4 ≡ some (65 + m)) × (m + 1 < 3)
unfolding insert make shift end_input shifts
last_is_skipped_example =
    last_is_skipped letters three_in 2 three_in-IsWindow (omega arith) (omega arith) (omega arith)
      refl

-- The first letter is current before the end and after the first shift.
stays :
    (three_in.vec 4 ≡ some 65)
    × ((shifts 1 (end_input three_in)).vec 4 ≡ some 65)
    × ((shifts 2 (end_input three_in)).vec 4 ≡ some 66)
unfolding insert place_elem append_elem move_down repeat_elem make shift end_input shifts
stays = (refl, refl, refl)
