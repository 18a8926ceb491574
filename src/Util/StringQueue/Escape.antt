-- ===== src/Util/StringQueue/Escape.antt =====
-- The escaped form of a string, which packages/basics/util/c_src/stringQueue.cc has in `printEsc`.
use mathlib.Core.Path.{subst}
use april_ann.Prelude.{
  ℕ, ◌≡◌, ◌≢◌, ◌⊎◌, inl, inr, refl, sym, true, false, none, some, List, [], ◌∷◌, arith, ◌==◌,
  Bool-cases,
}
use april_ann.Util.StringQueue.{escaped, head_code}

-- The letter that stands for a control character: \b, \f, \n, \r and \t.
pub data Letter : ℕ → ℕ → Type 0 where
  backspace : Letter 8 98
  tab : Letter 9 116
  line_feed : Letter 10 110
  form_feed : Letter 12 102
  carriage_return : Letter 13 114

-- A character that stands for itself.
pub record IsPlain (c : ℕ) : Type 0 where
  pub no_control : (e : ℕ) → ¬ (Letter c e)
  pub no_quote : c ≢ 34
  pub no_backslash : c ≢ 92

-- What a string becomes: 34 is the quotation mark, 92 the backslash and 117 the letter u.
pub data IsEscape : List ℕ → List ℕ → Type 0 where
  end_of_string : IsEscape [] []
  plain : {c : ℕ} {str t : List ℕ} → IsPlain c → IsEscape str t → IsEscape (c ∷ str) (c ∷ t)
  control :
      {c e : ℕ} {str t : List ℕ} → Letter c e → IsEscape str t → IsEscape (c ∷ str) (92 ∷ e ∷ t)
  quote : {str t : List ℕ} → IsEscape str t → IsEscape (34 ∷ str) (92 ∷ 34 ∷ t)
  unicode : {str t : List ℕ} → IsEscape (117 ∷ str) t → IsEscape (92 ∷ 117 ∷ str) (92 ∷ t)
  last_backslash : IsEscape (92 ∷ []) (92 ∷ 92 ∷ [])
  backslash :
      {c : ℕ} {str t : List ℕ}
      → c ≢ 117
      → IsEscape (c ∷ str) t
      → IsEscape (92 ∷ c ∷ str) (92 ∷ 92 ∷ t)

-- What `printEsc` writes for a string.
unfoldable pub escape : List ℕ → List ℕ
unfolding escaped
escape [] = []
escape (c ∷ str) = elim (escaped c (head_code str)) [
  | none ↦ c ∷ escape str
  | some e ↦ 92 ∷ e ∷ escape str
]

Letter-cases :
    (c e : ℕ)
    → Letter c e
    → ((c == 8) ≡ true)
      ⊎ (((c == 9) ≡ true) ⊎ (((c == 10) ≡ true) ⊎ (((c == 12) ≡ true) ⊎ ((c == 13) ≡ true))))
Letter-cases _ _ backspace = inl refl
Letter-cases _ _ tab = inr (inl refl)
Letter-cases _ _ line_feed = inr (inr (inl refl))
Letter-cases _ _ form_feed = inr (inr (inr (inl refl)))
Letter-cases _ _ carriage_return = inr (inr (inr (inr refl)))

IsPlain-if :
    (c : ℕ)
    → (c == 92) ≡ false
    → (c == 34) ≡ false
    → (c == 8) ≡ false
    → (c == 12) ≡ false
    → (c == 10) ≡ false
    → (c == 13) ≡ false
    → (c == 9) ≡ false
    → IsPlain c
IsPlain-if c n92 n34 n8 n12 n10 n13 n9 = record {
  no_control = λ e l. let k = Letter-cases c e l in absurd (ground arith);
  no_quote = λ h. absurd (ground arith);
  no_backslash = λ h. absurd (ground arith);
}

at_code :
    (c k : ℕ) (str : List ℕ)
    → (c == k) ≡ true
    → IsEscape (k ∷ str) (escape (k ∷ str))
    → IsEscape (c ∷ str) (escape (c ∷ str))
at_code c k str h e =
    let same : c ≡ k = ground arith in
    subst (λ j. IsEscape (j ∷ str) (escape (j ∷ str))) (sym same) e

unicode_lem :
    (str : List ℕ)
    → IsEscape (117 ∷ str) (escape (117 ∷ str))
    → IsEscape (92 ∷ 117 ∷ str) (escape (92 ∷ 117 ∷ str))
unfolding escape
unicode_lem str h = unicode h

backslash-IsEscape :
    (str : List ℕ) → IsEscape str (escape str) → IsEscape (92 ∷ str) (escape (92 ∷ str))
unfolding escape
backslash-IsEscape [] h = last_backslash
backslash-IsEscape (d ∷ str) h = elim (Bool-cases (d == 117)) [
  | inl u ↦
      let same : d ≡ 117 = ground arith in
      subst
        (λ j.
          IsEscape (j ∷ str) (escape (j ∷ str)) → IsEscape (92 ∷ j ∷ str) (escape (92 ∷ j ∷ str)))
        (sym same) (unicode_lem str) h
  | inr other ↦ rw (escape, other) (backslash (λ e. absurd (ground arith)) h)
]

plain-IsEscape :
    (c : ℕ) (str : List ℕ)
    → IsEscape str (escape str)
    → (c == 92) ≡ false
    → (c == 34) ≡ false
    → IsEscape (c ∷ str) (escape (c ∷ str))
unfolding escape
plain-IsEscape c str h n92 n34 = elim (Bool-cases (c == 8)) [
  | inl b ↦ at_code c 8 str b (control backspace h)
  | inr n8 ↦ elim (Bool-cases (c == 12)) [
    | inl f ↦ at_code c 12 str f (control form_feed h)
    | inr n12 ↦ elim (Bool-cases (c == 10)) [
      | inl n ↦ at_code c 10 str n (control line_feed h)
      | inr n10 ↦ elim (Bool-cases (c == 13)) [
        | inl r ↦ at_code c 13 str r (control carriage_return h)
        | inr n13 ↦ elim (Bool-cases (c == 9)) [
          | inl t ↦ at_code c 9 str t (control tab h)
          | inr n9 ↦
              rw (escape, n92, n34, n8, n12, n10, n13, n9)
                (plain (IsPlain-if c n92 n34 n8 n12 n10 n13 n9) h)
        ]
      ]
    ]
  ]
]

pub escape-IsEscape : (str : List ℕ) → IsEscape str (escape str)
unfolding escape
escape-IsEscape [] = end_of_string
escape-IsEscape (c ∷ str) =
    let h = escape-IsEscape str in
    elim (Bool-cases (c == 92)) [
      | inl b ↦ at_code c 92 str b (backslash-IsEscape str h)
      | inr n92 ↦ elim (Bool-cases (c == 34)) [
        | inl q ↦ at_code c 34 str q (quote h)
        | inr n34 ↦ plain-IsEscape c str h n92 n34
      ]
    ]
