-- ===== src/Util/Fifo/Tests.antt =====
-- fifo.h: runs, and the theorems at a queue of two nodes.
use april_ann.Prelude.{ℕ, ◌*◌, ◌≡◌, ◌==◌, if◌then◌else◌, [], ◌∷◌, some, arith, refl}
use april_ann.Prelude.Loop.{Ends}
use april_ann.Util.Fifo.{drop_by_value, Fifo, put, get, consult}
use april_ann.Util.Fifo.Drop.{occurs, left, without, drop_by_value_correct}
use april_ann.Util.Fifo.Queue.{IsQueue, get_correct}

abbrev two : Fifo ℕ
two = record {
  value = λ a. a * 10;
  next = λ a. if a == 4 then 9 else 0;
  first = 4;
  last = 9;
  the_size = 2;
}

two-IsQueue : IsQueue two (4 ∷ 9 ∷ []) (40 ∷ 90 ∷ [])
two-IsQueue = record {
  linked = (refl, λ e. ground arith, (refl, λ e. ground arith, refl));
  distinct = ((λ e. ground arith, omega arith), (omega arith, omega arith));
  last_node = refl;
  size = refl;
  values = refl;
}

abbrev fresh : Fifo ℕ
fresh = record { value = λ a. 0; next = λ a. 0; first = 0; last = 0; the_size = 0 }

passes_through : (get (put 3 7 fresh)).0 ≡ some 7
unfolding get put
passes_through = refl

get_correct_example :
    ((get two).0 ≡ some 40) × IsQueue (get two).1 (9 ∷ []) (90 ∷ []) × (consult two ≡ some 40)
get_correct_example = get_correct two (4 ∷ 9 ∷ []) (40 ∷ 90 ∷ []) two-IsQueue

drop_by_value_correct_example :
    Ends
      (λ r.
        (r.0 ≡ occurs (λ v. v == 90) (40 ∷ 90 ∷ []))
        × IsQueue r.1
            (left (λ v. v == 90) two (4 ∷ 9 ∷ []))
            (without (λ v. v == 90) (40 ∷ 90 ∷ [])))
      (drop_by_value (λ v. v == 90) two)
drop_by_value_correct_example =
    drop_by_value_correct (λ v. v == 90) two (4 ∷ 9 ∷ []) (40 ∷ 90 ∷ []) two-IsQueue
