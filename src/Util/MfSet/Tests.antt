-- ===== src/Util/MfSet/Tests.antt =====
-- mfset.h: runs, and the theorems at concrete structures.
use april_ann.Prelude.{ℕ, ◌≡◌, arith, refl, Option, none, some, ◌==◌, if◌then◌else◌}
use april_ann.Prelude.Loop.{Ends}
use april_ann.Util.Vector
use april_ann.Util.MfSet.{MfSet, grow, make_room, find_loop, find, link, merge}
use april_ann.Util.MfSet.Forest.{here, up, IsValid, Rep}
use april_ann.Util.MfSet.Find.{Found, find_correct}
use april_ann.Util.MfSet.Merge.{Merged, merge_correct}

abbrev junk : ℕ → ℕ
junk i = 77

-- 3 under 2 under 1, and 0 alone
abbrev chain : MfSet
chain = record {
  links = record {
    vec = λ i. if i == 3 then 2 else if i == 2 then 1 else i;
    used_size = 4;
    vector_size = 4;
  };
  max_vector_size = 4;
  vector_size = 4;
}

abbrev depth : ℕ → ℕ
depth i = if i == 3 then 2 else if i == 2 then 1 else 0

chain-IsValid : IsValid chain depth
chain-IsValid = record {
  forest = record { inside = λ i p. ground arith; falls = λ i p d. ground arith };
  used = omega arith;
  some_room = omega arith;
  full = omega arith;
  fits = omega arith;
}

Rep-3 : Rep chain 3 1
Rep-3 = ((λ p. up (up (here refl))), λ p. absurd (omega arith))

Rep-0 : Rep chain 0 0
Rep-0 = ((λ p. here refl), λ p. refl)

answer : Option (ℕ × MfSet) → ℕ
answer none = 100
answer (some (r, s)) = r

merged_root : ℕ → Option MfSet → ℕ
merged_root v none = 100
merged_root v (some s) = answer (find 10 s v)

find_runs : (answer (find 3 chain 3) ≡ 1) × (answer (find 3 chain 4) ≡ 100)
unfolding answer find find_loop
find_runs = (refl, refl)

merge_runs :
    (merged_root 3 (merge junk 10 chain 3 0) ≡ 1)
    × (merged_root 0 (merge junk 10 chain 3 0) ≡ 1)
    × (merged_root 9 (merge junk 10 chain 3 9) ≡ 1)
unfolding merged_root answer merge make_room grow Vector.resize find find_loop link
merge_runs = (refl, refl, refl)

find_correct_example : Ends (Found chain depth 3) (find 3 chain 3)
find_correct_example = find_correct 3 chain depth 3 chain-IsValid (omega arith) (omega arith)

merge_correct_example : Ends (Merged chain 1 0) (merge junk 3 chain 3 0)
merge_correct_example =
    merge_correct junk 3 chain depth 3 0 1 0 chain-IsValid Rep-3 Rep-0 (omega arith) (omega arith)
