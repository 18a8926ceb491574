-- ===== src/Util/HashTable.antt =====
-- packages/basics/util/c_src/hash_table.h: `april_utils::hash`, a table of chained buckets. A pointer
-- to a node's pair is named by its key, since no two nodes of a table have equal keys. `end_iterator` is
-- kept at `num_buckets` by every operation of the class, and is computed here.
pub mod Bucket
pub mod Valid
pub mod Load
pub mod Power
pub mod Put
pub mod Move
pub mod Resize
pub mod Insert
pub mod Erase
pub mod Copy
pub mod Walk
pub mod Iterate
pub mod DeleteIf
mod Tests
use april_ann.Prelude.{
  ℕ, zero, suc, ◌+◌, ◌*◌, ◌-◌, Bool, true, false, ◌&&◌, not, Option, none, some, List, [], ◌∷◌,
  ◌++◌, ltb, leb, ◌==◌, if◌then◌else◌,
}
use april_ann.Prelude.Array.{update}
use april_ann.Prelude.Loop.{◌>>=◌}
use april_ann.Util.HashKey.{Key, masked}
use Bucket.{Chain, second, chain_pair, chain_write, chain_erase}

pub record Hash {ℓ} (K V F : Type ℓ) : Type ℓ where
  pub buckets : ℕ → Chain K V
  pub num_buckets : ℕ
  pub hash_mask : ℕ
  pub the_size : ℕ
  pub rehash_threshold : ℕ
  pub max_load_factor : F

-- The loop `while (result < value) result += result;`.
unfoldable pub double_up : ℕ → ℕ → ℕ → Option ℕ
double_up zero result value = none
double_up (suc fuel) result value =
    let rest = double_up fuel (result + result) value in
    if ltb result value then rest else some result

unfoldable pub first_power_of_2 : ℕ → Option ℕ
unfolding double_up
first_power_of_2 value = double_up (suc value) 1 value

module _ {ℓ} {K V : Type ℓ} where
  -- The inner loop of `copy_buckets`: every node is copied behind the last one.
  unfoldable pub copy_chain : Chain K V → Chain K V
  copy_chain [] = []
  copy_chain (e ∷ c) = (e.0, e.1) ∷ copy_chain c

  -- The two loops of `get_hash_nodes`, which push every node of the buckets before `n`.
  unfoldable pub push_nodes : ℕ → (ℕ → Chain K V) → List (K × V)
  push_nodes zero buckets = []
  push_nodes (suc n) buckets = push_nodes n buckets ++ buckets n

  -- The inner loop of `delete_if`.
  unfoldable pub chain_delete_if : (K × V → Bool) → Chain K V → Chain K V
  chain_delete_if p [] = []
  chain_delete_if p (e ∷ c) = let rest = chain_delete_if p c in if p e then rest else e ∷ rest

module _ {ℓ} {K V : Type ℓ} ⦃key : Key K⦄ where
  -- The loop of `resize` over the nodes of one old bucket, and over the old buckets.
  unfoldable pub move_chain : ℕ → Chain K V → (ℕ → Chain K V) → ℕ → Chain K V
  move_chain mask [] new = new
  move_chain mask (e ∷ c) new =
      let i = masked mask e.0 in move_chain mask c (update new i (e ∷ new i))

  unfoldable pub move_all : ℕ → ℕ → (ℕ → Chain K V) → ℕ → Chain K V
  unfolding move_chain
  move_all mask zero old = λ _. []
  move_all mask (suc n) old = move_chain mask (old n) (move_all mask n old)

-- `ceil_load f n` is `(int)ceilf(f * n)`.
module _ {ℓ} {K V F : Type ℓ} (ceil_load : F → ℕ → ℕ) where
  unfoldable pub empty_table : F → ℕ → Hash K V F
  empty_table mxloadf n = record {
    buckets = λ _. [];
    num_buckets = n;
    hash_mask = n - 1;
    the_size = 0;
    rehash_threshold = ceil_load mxloadf n;
    max_load_factor = mxloadf;
  }

  -- The constructor.
  unfoldable pub make : ℕ → F → Option (Hash K V F)
  unfolding empty_table first_power_of_2
  make nbckts mxloadf = first_power_of_2 nbckts >>= λ n. some (empty_table mxloadf n)

module _ {ℓ} {K V F : Type ℓ} where
  unfoldable pub empty : Hash K V F → Bool
  empty t = t.the_size == 0

  -- The two loops of `clear` pop every node of every bucket.
  unfoldable pub clear : Hash K V F → Hash K V F
  unfolding empty
  clear t =
      if not (empty t)
      then record t { buckets = λ i. if ltb i t.num_buckets then [] else t.buckets i; the_size = 0 }
      else t

  unfoldable pub copy_buckets : Hash K V F → Hash K V F → Hash K V F
  unfolding copy_chain
  copy_buckets t other = record t {
    buckets = λ i. if ltb i t.num_buckets then copy_chain (other.buckets i) else t.buckets i;
  }

  -- The copy constructor and `operator=` between two tables, where `fresh` is what stands in a block
  -- that has just been allocated.
  module _ (fresh : ℕ → Chain K V) where
    unfoldable pub copy : Hash K V F → Hash K V F
    unfolding copy_buckets
    copy other = copy_buckets (record other { buckets = fresh }) other

    unfoldable pub assign : Hash K V F → Hash K V F → Hash K V F
    unfolding clear copy_buckets
    assign t other =
        let cleared = clear t in
        let block = if cleared.num_buckets == other.num_buckets then cleared.buckets else fresh in
        copy_buckets (record other { buckets = block }) other

  unfoldable pub get_hash_nodes : Hash K V F → List (K × V)
  unfolding push_nodes empty
  get_hash_nodes t = if not (empty t) then push_nodes t.num_buckets t.buckets else []

  unfoldable pub delete_if : (K × V → Bool) → Hash K V F → Hash K V F
  unfolding chain_delete_if
  delete_if p t = record t {
    buckets = λ i. if ltb i t.num_buckets then chain_delete_if p (t.buckets i) else t.buckets i;
  }

-- `ptr` is the chain of the nodes from the pointer on, and empty for a null pointer.
pub record Iterator {ℓ} (K V : Type ℓ) : Type ℓ where
  pub index : ℕ
  pub ptr : Chain K V

module _ {ℓ} {K V F : Type ℓ} where
  unfoldable pub end_iterator : Hash K V F → Iterator K V
  end_iterator t = record { index = t.num_buckets; ptr = [] }

  -- The loop `while (ptr == 0)`, which stops at a node or past the last bucket.
  unfoldable pub skip_empty : Hash K V F → ℕ → Iterator K V → Option (Iterator K V)
  skip_empty t zero it = none
  skip_empty t (suc fuel) it =
      let i = it.index + 1 in
      let rest = skip_empty t fuel (record { index = i; ptr = t.buckets i }) in
      elim it.ptr [
        | [] ↦ if ltb i t.num_buckets then rest else some (record { index = i; ptr = [] })
        | (e ∷ c) ↦ some it
      ]

  unfoldable pub begin : Hash K V F → Option (Iterator K V)
  unfolding skip_empty
  begin t = skip_empty t (t.num_buckets + 1) (record { index = 0; ptr = t.buckets 0 })

  -- `operator++` on an iterator that stands on a node.
  unfoldable pub advance : Hash K V F → Iterator K V → Option (Iterator K V)
  unfolding skip_empty
  advance t it = elim it.ptr [
    | [] ↦ none
    | (e ∷ c) ↦ skip_empty t (t.num_buckets + 1) (record { index = it.index; ptr = c })
  ]

  -- `it == end()`
  unfoldable pub at_end : Hash K V F → Iterator K V → Bool
  at_end t it = elim it.ptr [ [] ↦ it.index == t.num_buckets | (e ∷ c) ↦ false ]

module _ {ℓ} {K V F : Type ℓ} ⦃key : Key K⦄ where
  abbrev pub index_of : Hash K V F → K → ℕ
  index_of t k = masked t.hash_mask k

  unfoldable pub find_pair : Hash K V F → K → Option (K × V)
  unfolding chain_pair
  find_pair t k = chain_pair k (t.buckets (index_of t k))

  unfoldable pub find : Hash K V F → K → Option V
  unfolding find_pair
  find t k = second (find_pair t k)

  unfoldable pub search : Hash K V F → K → Bool
  unfolding find_pair
  search t k = elim (find_pair t k) [ none ↦ false | some p ↦ true ]

  -- `p->second = d` for the pair of a key.
  unfoldable pub write : Hash K V F → K → V → Hash K V F
  unfolding chain_write
  write t k d =
      let i = index_of t k in
      record t { buckets = update t.buckets i (chain_write k d (t.buckets i)) }

  unfoldable pub erase : Hash K V F → K → Hash K V F
  unfolding chain_erase
  erase t k =
      let i = index_of t k in
      elim (chain_erase k (t.buckets i)) [
        | none ↦ t
        | some c ↦ record t { buckets = update t.buckets i c; the_size = t.the_size - 1 }
      ]

  -- The node that the second half of `find_and_add_pair` puts before the others. `initial` is `dt()`.
  unfoldable pub add_node : V → Hash K V F → K → Hash K V F
  add_node initial t k =
      let i = index_of t k in
      record t {
        buckets = update t.buckets i ((k, initial) ∷ t.buckets i);
        the_size = t.the_size + 1;
      }

  module _ (ceil_load : F → ℕ → ℕ) where
    unfoldable pub rehash : ℕ → Hash K V F → Hash K V F
    unfolding move_all
    rehash n t = record t {
      buckets = move_all (n - 1) t.num_buckets t.buckets;
      num_buckets = n;
      hash_mask = n - 1;
      rehash_threshold = ceil_load t.max_load_factor n;
    }

    unfoldable pub resize : ℕ → Hash K V F → Option (Hash K V F)
    unfolding rehash first_power_of_2
    resize n t = first_power_of_2 n >>= λ m. some (if m == t.num_buckets then t else rehash m t)

    module _ (initial : V) where
      -- The Boolean is `isNew`; the pair that the pointer leads to is the one of `k`.
      unfoldable pub find_and_add_pair : Hash K V F → K → Option (Bool × Hash K V F)
      unfolding find_pair add_node resize
      find_and_add_pair t k = elim (find_pair t k) [
        | some p ↦ some (false, t)
        | none ↦
            let added = add_node initial t k in
            (if leb added.rehash_threshold added.the_size
              then resize (2 * added.num_buckets) added
              else some added)
            >>= λ u. some (true, u)
      ]

      -- `operator[]`: the value that the reference leads to.
      unfoldable pub subscript : Hash K V F → K → Option (Option V × Hash K V F)
      unfolding find_and_add_pair find
      subscript t k = find_and_add_pair t k >>= λ r. some (find r.1 k, r.1)

      unfoldable pub insert : Hash K V F → K → V → Option (Bool × Hash K V F)
      unfolding find_and_add_pair write
      insert t k d = find_and_add_pair t k >>= λ r. some (r.0, write r.1 k d)
