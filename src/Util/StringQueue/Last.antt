-- ===== src/Util/StringQueue/Last.antt =====
-- Changes at the last node in packages/basics/util/c_src/stringQueue.cc.
use mathlib.Core.List.{append_assoc, append-nil}
use april_ann.Prelude.{
  ℕ, zero, suc, ◌≤◌, ◌≡◌, refl, ap, sym, ◌∙◌, List, [], ◌∷◌, ◌++◌, length, length-append, drop,
  arith, Bool-cases, inl, inr, ◌==◌, if◌then◌else◌,
}
use april_ann.Util.StringQueue.{Node, new_node, on_last, check_last, put_last, put_char_no_check}

-- What the nodes hold, in order.
unfoldable pub contents : List Node → List ℕ
contents [] = []
contents (n ∷ ns) = drop n.first n.buffer ++ contents ns

abbrev pub Fits : Node → Type 0
Fits n = n.first ≤ length n.buffer

-- At least one node, and `first` is at most `last` in each.
pub data IsChain : List Node → Type 0 where
  only : {n : Node} → Fits n → IsChain (n ∷ [])
  more : {n m : Node} {ns : List Node} → Fits n → IsChain (m ∷ ns) → IsChain (n ∷ m ∷ ns)

pub IsChain-cons : (n : Node) (ns : List Node) → Fits n → IsChain ns → IsChain (n ∷ ns)
IsChain-cons n _ f (only g) = more f (only g)
IsChain-cons n _ f (more g c) = more f (more g c)

drop-append :
    {A : Type 0} (k : ℕ) (xs ys : List A) → k ≤ length xs → drop k (xs ++ ys) ≡ drop k xs ++ ys
drop-append zero xs ys h = refl
drop-append (suc k) [] ys h = absurd (omega arith)
drop-append (suc k) (x ∷ xs) ys h = drop-append k xs ys (omega arith)

-- A change that adds `s` to the last node adds it to the contents.
pub record Adds (s : List ℕ) (ns ms : List Node) : Type 0 where
  pub chain : IsChain ms
  pub added : contents ms ≡ contents ns ++ s

on_last-Adds :
    (f : Node → List Node) (s : List ℕ) (ns : List Node)
    → ((n : Node) → Fits n → Adds s (n ∷ []) (f n))
    → IsChain ns
    → Adds s ns (on_last f ns)
unfolding on_last contents
on_last-Adds f s _ h (only {n = n} g) = h n g
on_last-Adds f s _ h (more {n = n} {m = m} {ns = ns} g c) =
    let rest = on_last-Adds f s (m ∷ ns) h c in
    record {
      chain = IsChain-cons n (on_last f (m ∷ ns)) g rest.chain;
      added =
          ap (λ xs. drop n.first n.buffer ++ xs) rest.added
          ∙ sym (append_assoc (drop n.first n.buffer) (contents (m ∷ ns)) s);
    }

check_last-Adds :
    (buffer_size : ℕ) (ns : List Node) → IsChain ns → Adds [] ns (check_last buffer_size ns)
unfolding check_last contents
check_last-Adds buffer_size ns c =
    on_last-Adds (λ n. if length n.buffer == buffer_size then n ∷ new_node ∷ [] else n ∷ []) [] ns
      (λ n f. elim (Bool-cases (length n.buffer == buffer_size)) [
        | inl full ↦
            rw full (record { chain = more f (only (omega arith)); added = sym (append-nil _) })
        | inr free ↦ rw free (record { chain = only f; added = sym (append-nil _) })
      ])
      c

pub put_last-Adds :
    (buffer_size c : ℕ) (ns : List Node) → IsChain ns → Adds (c ∷ []) ns (put_last buffer_size c ns)
unfolding put_last contents
put_last-Adds buffer_size c ns o =
    let checked = check_last-Adds buffer_size ns o in
    let put =
      on_last-Adds (λ n. put_char_no_check c n ∷ []) (c ∷ []) (check_last buffer_size ns)
        (λ n f. record {
          chain = only (let l = length-append n.buffer (c ∷ []) in omega arith);
          added =
              append-nil (drop n.first (n.buffer ++ (c ∷ [])))
              ∙ drop-append n.first n.buffer (c ∷ []) f
              ∙ ap (λ xs. xs ++ (c ∷ [])) (sym (append-nil (drop n.first n.buffer)));
        })
        checked.chain in
    record {
      chain = put.chain;
      added = put.added ∙ ap (λ xs. xs ++ (c ∷ [])) (checked.added ∙ append-nil (contents ns));
    }
