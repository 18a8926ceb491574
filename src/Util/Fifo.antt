-- ===== src/Util/Fifo.antt =====
-- packages/basics/util/c_src/fifo.h: a queue of linked nodes. An address is a number, and 0 is the null
-- pointer; the nodes are two blocks, and what `new` returns is an argument. A deleted node stays as it
-- was, since nothing reads it.
use april_ann.Prelude.{
  ℕ, zero, suc, ◌+◌, ◌-◌, Bool, true, false, ◌==◌, if◌then◌else◌, Option, none, some,
}
use april_ann.Prelude.Array.{update}
use april_ann.Prelude.Loop.{◌>>=◌}
pub mod Chain
pub mod Queue
pub mod Drop
mod Tests

pub record Fifo (T : Type 0) : Type 0 where
  pub value : ℕ → T
  pub next : ℕ → ℕ
  pub first : ℕ
  pub last : ℕ
  pub the_size : ℕ

module _ {T : Type 0} where
  unfoldable pub make : (ℕ → T) → (ℕ → ℕ) → Fifo T
  make value next = record { value = value; next = next; first = 0; last = 0; the_size = 0 }

  unfoldable pub put : ℕ → T → Fifo T → Fifo T
  put aux v f =
      let value = update f.value aux v in
      let next = update f.next aux 0 in
      if f.first == 0
      then record { value = value; next = next; first = aux; last = aux; the_size = f.the_size + 1 }
      else record {
        value = value;
        next = update next f.last aux;
        first = f.first;
        last = aux;
        the_size = f.the_size + 1;
      }

  -- `none` is the answer false.
  unfoldable pub get : Fifo T → Option T × Fifo T
  get f = if f.first == 0 then (none, f) else (
    some (f.value f.first),
    record f {
      first = f.next f.first;
      last = if f.first == f.last then 0 else f.last;
      the_size = f.the_size - 1;
    },
  )

  unfoldable pub consult : Fifo T → Option T
  consult f = if f.first == 0 then none else some (f.value f.first)

  -- The loop that looks for the value: `prev` and `reco` where it stops. `none` says that the fuel ran out.
  unfoldable pub seek : (T → Bool) → Fifo T → ℕ → ℕ → ℕ → Option (ℕ × ℕ)
  seek is_value f zero prev reco = none
  seek is_value f (suc fuel) prev reco =
      let rest = seek is_value f fuel reco (f.next reco) in
      if reco == 0
      then some (prev, reco)
      else if is_value (f.value reco)
      then some (prev, reco)
      else rest

  unfoldable pub drop_at : Fifo T → ℕ → ℕ → Bool × Fifo T
  drop_at f prev reco =
      if reco == 0
      then (false, f)
      else let last = if f.last == reco then prev else f.last in
        (
          true,
          if prev == 0
              then record f { first = f.next reco; last = last; the_size = f.the_size - 1 }
              else record f {
                next = update f.next prev (f.next reco);
                last = last;
                the_size = f.the_size - 1;
              },
        )

  unfoldable pub drop_by_value : (T → Bool) → Fifo T → Option (Bool × Fifo T)
  drop_by_value is_value f =
      seek is_value f (f.the_size + 1) 0 f.first >>= λ found. some (drop_at f found.0 found.1)
