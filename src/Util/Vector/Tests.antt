-- ===== src/Util/Vector/Tests.antt =====
-- vector.h: runs, and the theorems at concrete vectors.
use april_ann.Prelude.{ℕ, ◌+◌, ◌≡◌, [], ◌∷◌, arith, refl}
use april_ann.Util.Vector.{Vector, make_filled, push_back}
use april_ann.Util.Vector.Contents.{IsValid, contents}

abbrev junk : ℕ → ℕ
junk i = 77

abbrev pair : Vector ℕ
pair = record { vec = λ i. i + 4; used_size = 2; vector_size = 2 }

pair-IsValid : IsValid pair
pair-IsValid = record { fits = omega arith }

filled_runs : contents (push_back junk (make_filled junk 2 9) 3) ≡ 9 ∷ 9 ∷ 3 ∷ []
unfolding make_filled push_back
filled_runs = refl
