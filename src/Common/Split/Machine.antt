-- ===== src/Common/Split/Machine.antt =====
-- The search for the end of a token reads the text as a machine with a state: outside of quotes,
-- or inside of a quote that a given rune closes.
use go_dpdk.Base.{
  sym, length-drop, ℕ, zero, suc, ◌+◌, ◌<◌, ◌≡◌, refl, arith, Bool, true, not, ◌&&◌, ◌==◌,
  if◌then◌else◌, Option, none, some, List, [], ◌∷◌, length, drop, ◌∙◌, ap, inl, inr, Option-cases,
  Bool-cases,
}
use go_dpdk.Common.Split.{
  Splitter, is_some, index_func, Ended, closed, unterminated, open_quote, is_space_or_quote,
  past_rune, scan_token, past_rune,
}

pub index_func_at :
    (f : ℕ → Bool) (xs : List ℕ) (k : ℕ)
    → index_func f xs ≡ some k
    → (c : ℕ) × (cs : List ℕ) × (drop k xs ≡ c ∷ cs)
      × (drop (suc k) xs ≡ cs)
      × (f c ≡ true)
      × (length cs + k + 1 ≡ length xs)
unfolding index_func
index_func_at f [] k e = absurd cc
index_func_at f (x ∷ xs) zero e = (x, xs, refl, refl, ground arith, omega arith)
index_func_at f (x ∷ xs) (suc k) e =
    let (c, cs, at, past, hit, size) = index_func_at f xs k (ground arith) in
    (c, cs, at, past, hit, omega arith)

module _ (s : Splitter) where
  -- One rune at a time; the state is the rune that closes the quote.
  unfoldable pub token_end : List ℕ → Option ℕ → ℕ → Ended
  token_end [] none n = unterminated
  token_end [] (some q) n = open_quote
  token_end (c ∷ cs) none n =
      let later = token_end cs (s.is_quote c) (n + 1) in
      if not (is_some (s.is_quote c)) && s.is_space c then closed n else later
  token_end (c ∷ cs) (some q) n = token_end cs (if c == q then none else some q) (n + 1)

  abbrev from_index : Option ℕ → List ℕ → ℕ → Ended
  from_index none xs n = unterminated
  from_index (some k) xs n = token_end (drop k xs) none (n + k)

  -- The index in a list with one more rune in front.
  abbrev next : Option ℕ → Option ℕ
  next none = none
  next (some k) = some (suc k)

  from_index-next :
      (o : Option ℕ) (c : ℕ) (cs : List ℕ) (n : ℕ)
      → from_index o cs (n + 1) ≡ from_index (next o) (c ∷ cs) n
  from_index-next none c cs n = refl
  from_index-next (some k) c cs n = ap (token_end (drop k cs) none) (omega arith)

  outside_skip :
      (xs : List ℕ) (n : ℕ)
      → token_end xs none n ≡ from_index (index_func (is_space_or_quote s) xs) xs n
  unfolding token_end index_func
  outside_skip [] n = refl
  outside_skip (c ∷ cs) n = elim (Bool-cases (is_space_or_quote s c)) [
    | inl special ↦ rw special (ap (token_end (c ∷ cs) none) (omega arith))
    | inr plain ↦ rw plain (
        ground (
          arith,
          plain,
          outside_skip cs (n + 1),
          from_index-next (index_func (is_space_or_quote s) cs) c cs n,
        ))
  ]

  abbrev from_quote : Option ℕ → List ℕ → ℕ → Ended
  from_quote none xs n = open_quote
  from_quote (some k) xs n = token_end (drop (suc k) xs) none (n + suc k)

  from_quote-next :
      (o : Option ℕ) (c : ℕ) (cs : List ℕ) (n : ℕ)
      → from_quote o cs (n + 1) ≡ from_quote (next o) (c ∷ cs) n
  from_quote-next none c cs n = refl
  from_quote-next (some k) c cs n = ap (token_end (drop (suc k) cs) none) (omega arith)

  inside_skip :
      (q : ℕ) (xs : List ℕ) (n : ℕ)
      → token_end xs (some q) n ≡ from_quote (index_func (λ c. c == q) xs) xs n
  unfolding token_end index_func
  inside_skip q [] n = refl
  inside_skip q (c ∷ cs) n = elim (Bool-cases (c == q)) [
    | inl hit ↦ rw hit (ap (token_end cs none) (omega arith))
    | inr miss ↦
        rw miss (inside_skip q cs (n + 1) ∙ from_quote-next (index_func (λ c'. c' == q) cs) c cs n)
  ]

  -- A special rune, and what the loop gives past the closing quote.
  past_rune-token_end :
      (c : ℕ) (cs : List ℕ) (m : ℕ) (loop : List ℕ → ℕ → Ended)
      → is_space_or_quote s c ≡ true
      → ((j : ℕ)
          → loop (drop (suc j) cs) (m + 1 + suc j)
            ≡ token_end (drop (suc j) cs) none (m + 1 + suc j))
      → past_rune (s.is_quote c) cs m loop ≡ token_end (c ∷ cs) none m
  unfolding token_end past_rune
  past_rune-token_end c cs m loop special rec = elim (Option-cases (s.is_quote c)) [
    | inl plain ↦ ground (arith, plain, special)
    | inr (q, quote) ↦ rw quote (elim (Option-cases (index_func (λ r. r == q) cs)) [
      | inl missing ↦ rw (past_rune, missing) (sym (inside_skip q cs (m + 1) ∙ rw missing refl))
      | inr (j, found) ↦
          rw (past_rune, found) (rec j ∙ sym (inside_skip q cs (m + 1) ∙ rw found refl))
    ])
  ]

  -- With fuel for the rest of the text, the loop of SplitFunc ends where the machine ends.
  pub scan_token-token_end :
      (fuel : ℕ) (rest : List ℕ) (n : ℕ)
      → length rest < fuel
      → scan_token s fuel rest n ≡ token_end rest none n
  unfolding scan_token
  scan_token-token_end zero rest n h = absurd (omega arith)
  scan_token-token_end (suc fuel) rest n h =
      elim (Option-cases (index_func (is_space_or_quote s) rest)) [
        | inl none_left ↦ rw (scan_token, none_left) (sym (outside_skip rest n ∙ rw none_left refl))
        | inr (k, found) ↦
            let (c, cs, at, past, special, shorter) =
              index_func_at (is_space_or_quote s) rest k found in
            rw (scan_token, found, at, past)
              (past_rune-token_end c cs (n + k) (scan_token s fuel) special (λ j.
                scan_token-token_end fuel (drop (suc j) cs) (n + k + 1 + suc j)
                  (omega (arith, length-drop (suc j) cs))))
            ∙ ap (λ (t : List ℕ). token_end t none (n + k)) (sym at)
            ∙ sym (outside_skip rest n ∙ rw found refl)
      ]
