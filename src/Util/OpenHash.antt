-- ===== src/Util/OpenHash.antt =====
-- packages/basics/util/c_src/open_addressing_hash.h: `april_utils::open_addr_hash`, a table whose pairs
-- stand in the vector itself, at the first free position of a probe sequence. A reference to a value is
-- the position of its pair. `index + step` stays below 2 ^ 32, since `index` is below 2 ^ 31 and `step`
-- at most 2 ^ 17. `end_iterator` is computed.
pub mod Probe
pub mod Slots
pub mod Store
pub mod Rewrite
pub mod Move
pub mod Table
pub mod Insert
pub mod Fresh
pub mod Walk
mod Tests
use Prim.Native.Nat.{bit_and, bit_or}
use april_ann.Prelude.{
  ℕ, zero, suc, ◌+◌, ◌*◌, ◌-◌, ◌/◌, ◌^◌, Bool, true, false, ◌&&◌, not, Option, some, none, ltb, leb,
  ◌==◌, if◌then◌else◌,
}
use april_ann.Prelude.Array.{update}
use april_ann.Prelude.Loop.{◌>>=◌}
use april_ann.Util.HashKey.{Key, ◌=k=◌, masked}
use april_ann.Util.HashTable.{double_up}

pub record OpenHash {ℓ} (K V F : Type ℓ) : Type ℓ where
  pub buckets : ℕ → K × V
  pub num_buckets : ℕ
  pub hash_mask : ℕ
  pub the_size : ℕ
  pub rehash_threshold : ℕ
  pub max_load_factor : F
  pub empty_key : K

-- The loop of the chained table, but from 4.
unfoldable pub first_power_of_2 : ℕ → Option ℕ
unfolding double_up
first_power_of_2 value = double_up (suc value) 4 value

module _ {ℓ} {K : Type ℓ} ⦃key : Key K⦄ where
  -- `(hfval >> 15) | 1`
  unfoldable pub step_of : K → ℕ
  step_of k = bit_or (key.hash_function k / 2 ^ 15) 1

  -- `index = (index + step) & hash_mask`
  abbrev pub next_index : ℕ → K → ℕ → ℕ
  next_index mask k index = bit_and (index + step_of k) mask

module _ {ℓ} {K V : Type ℓ} ⦃key : Key K⦄ (empty_key : K) (mask : ℕ) (k : K) (b : ℕ → K × V) where
  -- The loop of `find_pair` and `operator[]`: the position it stops at, and whether the key is there.
  unfoldable pub seek : ℕ → ℕ → Option (Bool × ℕ)
  unfolding step_of
  seek zero index = none
  seek (suc fuel) index =
      let rest = seek fuel (next_index mask k index) in
      if (b index).0 =k= empty_key
      then some (false, index)
      else if (b index).0 =k= k
      then some (true, index)
      else rest

  -- The loop `while (!equal_key(buckets[index].first,empty_key))`, for a key that is not there.
  unfoldable pub seek_free : ℕ → ℕ → Option ℕ
  unfolding step_of
  seek_free zero index = none
  seek_free (suc fuel) index =
      let rest = seek_free fuel (next_index mask k index) in
      if (b index).0 =k= empty_key then some index else rest

-- The loop of `resize` over the first `m` positions of the old vector. `initial` is `dt()`.
module _ {ℓ} {K V : Type ℓ} ⦃key : Key K⦄ (initial : V) (empty : K) (n : ℕ) where
  unfoldable pub move_slots : ℕ → (ℕ → K × V) → Option (ℕ → K × V)
  unfolding seek_free
  move_slots zero old = some (λ _. (empty, initial))
  move_slots (suc m) old = move_slots m old >>= λ new.
      if not ((old m).0 =k= empty)
      then (seek_free empty (n - 1) (old m).0 new n (masked (n - 1) (old m).0) >>= λ i.
          some (update new i (old m)))
      else some new

module _ {ℓ} {K V F : Type ℓ} ⦃key : Key K⦄ where
  unfoldable pub find_pair : OpenHash K V F → K → Option (Option (K × V))
  unfolding seek
  find_pair t k =
      seek t.empty_key t.hash_mask k t.buckets t.num_buckets (masked t.hash_mask k) >>= λ r.
      some (if r.0 then some (t.buckets r.1) else none)

  unfoldable pub find : OpenHash K V F → K → Option (Option V)
  unfolding find_pair
  find t k = find_pair t k >>= λ p. some (elim p [ none ↦ none | some e ↦ some e.1 ])

  unfoldable pub clear : OpenHash K V F → OpenHash K V F
  clear t = record t {
    buckets = λ i. if ltb i t.num_buckets then (t.empty_key, (t.buckets i).1) else t.buckets i;
    the_size = 0;
  }

  -- The copy constructor, which leaves the empty key as `junk`.
  unfoldable pub copy : (ℕ → K × V) → K → OpenHash K V F → OpenHash K V F
  copy fresh junk other = record other {
    buckets = λ i. if ltb i other.num_buckets then other.buckets i else fresh i;
    empty_key = junk;
  }

  -- `operator=` between two tables, which leaves the empty key as it is.
  unfoldable pub assign : (ℕ → K × V) → OpenHash K V F → OpenHash K V F → OpenHash K V F
  assign fresh t other =
      let block = if t.num_buckets == other.num_buckets then t.buckets else fresh in
      record other {
        buckets = λ i. if ltb i other.num_buckets then other.buckets i else block i;
        empty_key = t.empty_key;
      }

  -- The key is written at a free position.
  unfoldable pub put_key : K → OpenHash K V F × ℕ → OpenHash K V F × ℕ
  put_key k (t, i) = (record t { buckets = update t.buckets i (k, (t.buckets i).1) }, i)

  -- `ceil_load f n` is `(int)ceilf(f * n)`, and `initial` is `dt()`.
  module _ (ceil_load : F → ℕ → ℕ) (initial : V) where
    unfoldable pub empty_table : K → F → ℕ → OpenHash K V F
    empty_table empty mxloadf n = record {
      buckets = λ _. (empty, initial);
      num_buckets = n;
      hash_mask = n - 1;
      the_size = 0;
      rehash_threshold = ceil_load mxloadf n;
      max_load_factor = mxloadf;
      empty_key = empty;
    }

    -- The constructor, whose load factor is `mxloadf` or 0.9 if that is less.
    unfoldable pub make : K → ℕ → F → Option (OpenHash K V F)
    unfolding empty_table first_power_of_2
    make empty nbckts mxloadf = first_power_of_2 nbckts >>= λ n. some (empty_table empty mxloadf n)

    unfoldable pub resize : ℕ → OpenHash K V F → Option (OpenHash K V F)
    unfolding first_power_of_2 move_slots
    resize n t = first_power_of_2 n >>= λ m.
        if m == t.num_buckets
        then some t
        else (move_slots initial t.empty_key m t.num_buckets t.buckets >>= λ b. some (record t {
          buckets = b;
          num_buckets = m;
          hash_mask = m - 1;
          rehash_threshold = ceil_load t.max_load_factor m;
        }))

    -- The table and the free position after the test of `operator[]` on the threshold.
    unfoldable pub make_room : OpenHash K V F → K → ℕ → Option (OpenHash K V F × ℕ)
    unfolding resize seek_free
    make_room t k i =
        if leb t.rehash_threshold t.the_size
        then (resize (2 * t.num_buckets) t >>= λ u.
            seek_free u.empty_key u.hash_mask k u.buckets u.num_buckets (masked u.hash_mask k)
            >>= λ j. some (u, j))
        else some (t, i)

    -- `operator[]`: the table and the position of the value.
    unfoldable pub subscript : OpenHash K V F → K → Option (OpenHash K V F × ℕ)
    unfolding seek make_room put_key
    subscript t k =
        seek t.empty_key t.hash_mask k t.buckets t.num_buckets (masked t.hash_mask k) >>= λ r.
        if r.0
        then some (t, r.1)
        else (make_room (record t { the_size = t.the_size + 1 }) k r.1 >>= λ s. some (put_key k s))

    unfoldable pub insert : OpenHash K V F → K → V → Option (OpenHash K V F)
    unfolding subscript
    insert t k d = subscript t k >>= λ r.
        some (record r.0 { buckets = update r.0.buckets r.1 ((r.0.buckets r.1).0, d) })

module _ {ℓ} {K V F : Type ℓ} ⦃key : Key K⦄ (t : OpenHash K V F) where
  -- The loop past free positions, of `begin` and of the iterators' `operator++`.
  unfoldable pub skip_free : ℕ → ℕ → Option ℕ
  skip_free zero index = none
  skip_free (suc fuel) index =
      let rest = skip_free fuel (index + 1) in
      if ltb index t.num_buckets && ((t.buckets index).0 =k= t.empty_key) then rest else some index

  unfoldable pub begin : Option ℕ
  unfolding skip_free
  begin = skip_free (t.num_buckets + 1) 0

  -- `operator++`
  unfoldable pub advance : ℕ → Option ℕ
  unfolding skip_free
  advance index = skip_free (t.num_buckets + 1) (index + 1)
