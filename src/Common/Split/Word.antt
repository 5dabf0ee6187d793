-- ===== src/Common/Split/Word.antt =====
-- What SplitFunc returns: a word, with quotes in it, and an advance inside the text.
use go_dpdk.Base.{
  ℕ, suc, ◌+◌, ◌<◌, ◌≤◌, ◌≡◌, ◌≢◌, inl, inr, refl, ap, ◌∙◌, arith, Bool, true, false, not, ◌==◌,
  if◌then◌else◌, Option, none, some, List, [], ◌∷◌, ◌++◌, length, take, drop, Option-cases,
}
use go_dpdk.Common.Split.{
  Splitter, index_func, Ended, closed, unterminated, open_quote, no_fuel, finish, split_func,
}
use go_dpdk.Common.Split.Machine.{token_end, scan_token-token_end, index_func_at}

drop-append : (xs ys : List ℕ) → drop (length xs) (xs ++ ys) ≡ ys
drop-append [] ys = refl
drop-append (x ∷ xs) ys = drop-append xs ys

take-append : (xs ys : List ℕ) → take (length xs) (xs ++ ys) ≡ xs
take-append [] ys = refl
take-append (x ∷ xs) ys = ap (λ t. x ∷ t) (take-append xs ys)

module _ (s : Splitter) where
  -- Every rune is a space.
  abbrev pub IsBlank : List ℕ → Type 0
  IsBlank [] = Unit
  IsBlank (c ∷ cs) = (s.is_space c ≡ true) × IsBlank cs

  -- The runes start a token and, read to their end, leave no quote open and no space outside of
  -- quotes.
  abbrev pub IsWord : List ℕ → Type 0
  IsWord [] = ⊥
  IsWord (c ∷ cs) = (s.is_space c ≡ false) × (token_end s (c ∷ cs) none 0 ≡ unterminated)

  token_end-append :
      (xs ys : List ℕ) (o : Option ℕ) (n : ℕ)
      → token_end s xs o n ≡ unterminated
      → token_end s (xs ++ ys) o n ≡ token_end s ys none (n + length xs)
  unfolding token_end
  token_end-append [] ys none n e = ap (token_end s ys none) (omega arith)
  token_end-append [] ys (some q) n e = absurd cc
  token_end-append (x ∷ xs) ys none n e =
      let later : token_end s ys none (n + 1 + length xs)
          ≡ token_end s ys none (n + suc (length xs)) =
        ap (token_end s ys none) (omega arith) in
      ground (arith, token_end-append xs ys (s.is_quote x) (n + 1), later)
  token_end-append (x ∷ xs) ys (some q) n e =
      token_end-append xs ys (if x == q then none else some q) (n + 1) e
      ∙ ap (token_end s ys none) (omega arith)

  closed_bounds :
      (xs : List ℕ) (o : Option ℕ) (n e : ℕ)
      → token_end s xs o n ≡ closed e
      → (n ≤ e) × (e < n + length xs)
  unfolding token_end
  closed_bounds [] none n e h = absurd cc
  closed_bounds [] (some q) n e h = absurd cc
  closed_bounds (x ∷ xs) none n e h = ground (arith, closed_bounds xs (s.is_quote x) (n + 1) e)
  closed_bounds (x ∷ xs) (some q) n e h =
      ground (arith, closed_bounds xs (if x == q then none else some q) (n + 1) e h)

  token_end-ends : (xs : List ℕ) (o : Option ℕ) (n : ℕ) → token_end s xs o n ≢ no_fuel
  unfolding token_end
  token_end-ends [] none n h = absurd cc
  token_end-ends [] (some q) n h = absurd cc
  token_end-ends (x ∷ xs) none n h = ground (arith, token_end-ends xs (s.is_quote x) (n + 1))
  token_end-ends (x ∷ xs) (some q) n h =
      token_end-ends xs (if x == q then none else some q) (n + 1) h

  index_func-blank :
      (spaces : List ℕ) (c : ℕ) (cs : List ℕ)
      → IsBlank spaces
      → s.is_space c ≡ false
      → index_func (λ r. not (s.is_space r)) (spaces ++ c ∷ cs) ≡ some (length spaces)
  unfolding index_func
  index_func-blank [] c cs blank start = rw start refl
  index_func-blank (x ∷ xs) c cs blank start =
      rw (blank.0, index_func-blank xs c cs blank.1 start) refl

  -- What SplitFunc returns for the token that starts `skip` runes in.
  split_at :
      (text d : List ℕ) (skip : ℕ) (at_eof : Bool)
      → index_func (λ r. not (s.is_space r)) text ≡ some skip
      → drop skip text ≡ d
      → split_func s text at_eof ≡ finish s (token_end s d none 0) skip d at_eof
  unfolding split_func
  split_at text d skip at_eof found at =
      rw (split_func, found, at)
        (ap (λ t. finish s t skip d at_eof)
          (scan_token-token_end s (length d + 1) d 0 (omega arith)))

  stops :
      (rest : List ℕ) (sep n : ℕ)
      → s.is_space sep ≡ true
      → s.is_quote sep ≡ none
      → token_end s (sep ∷ rest) none n ≡ closed n
  unfolding token_end
  stops rest sep n space plain = ground (arith, space, plain)

  -- After spaces and before one, SplitFunc returns the whole word, quoted spaces included, and
  -- advances past the space that ends it.
  pub split_func-word :
      (spaces word rest : List ℕ) (sep : ℕ) (at_eof : Bool)
      → IsBlank spaces
      → IsWord word
      → s.is_space sep ≡ true
      → s.is_quote sep ≡ none
      → split_func s (spaces ++ (word ++ sep ∷ rest)) at_eof
        ≡ record { advance = length spaces + length word + 1; token = some word; is_open = false }
  unfolding finish
  split_func-word spaces [] rest sep at_eof blank is_word space plain = absurd is_word
  split_func-word spaces (c ∷ cs) rest sep at_eof blank (start, ends) space plain =
      let word = c ∷ cs in
      let d = word ++ sep ∷ rest in
      let end : token_end s d none 0 ≡ closed (length word) =
        token_end-append word (sep ∷ rest) none 0 ends
        ∙ stops rest sep (0 + length word) space plain
        ∙ ap closed (omega arith) in
      split_at (spaces ++ d) d (length spaces) at_eof
        (index_func-blank spaces c (cs ++ sep ∷ rest) blank start) (drop-append spaces d)
      ∙ ap (λ t. finish s t (length spaces) d at_eof) end
      ∙ ap
          (λ t. record {
            advance = length spaces + length word + 1;
            token = some t;
            is_open = false;
          })
          (take-append word (sep ∷ rest))

  finish_progress :
      (d : List ℕ) (skip : ℕ) (at_eof : Bool) (size : ℕ) (end : Ended)
      → ((e : ℕ) → end ≡ closed e → (0 ≤ e) × (e < 0 + length d))
      → end ≢ no_fuel
      → 0 < length d
      → skip + length d ≡ size
      → ((finish s end skip d at_eof).advance ≤ size)
        × (at_eof ≡ true → 0 < size → 0 < (finish s end skip d at_eof).advance)
  unfolding finish
  finish_progress d skip at_eof size (closed e) inside ended some_left sum =
      let (low, high) = inside e refl in (omega arith, λ p q. omega arith)
  finish_progress d skip true size unterminated inside ended some_left sum =
      (omega arith, λ p q. omega arith)
  finish_progress d skip false size unterminated inside ended some_left sum =
      (omega arith, λ p q. absurd cc)
  finish_progress d skip true size open_quote inside ended some_left sum =
      (omega arith, λ p q. omega arith)
  finish_progress d skip false size open_quote inside ended some_left sum =
      (omega arith, λ p q. absurd cc)
  finish_progress d skip at_eof size no_fuel inside ended some_left sum = absurd (ended refl)

  -- SplitFunc never advances past the text, and at the end of the input it advances, so that
  -- calling it on what is left comes to an end.
  pub split_func_progress :
      (text : List ℕ) (at_eof : Bool)
      → ((split_func s text at_eof).advance ≤ length text)
        × (at_eof ≡ true → 0 < length text → 0 < (split_func s text at_eof).advance)
  unfolding split_func
  split_func_progress text at_eof =
      elim (Option-cases (index_func (λ r. not (s.is_space r)) text)) [
        | inl blank ↦ rw (split_func, blank) (omega arith, λ e h. h)
        | inr (skip, found) ↦
            let (c, cs, at, past, start, size) =
              index_func_at (λ r. not (s.is_space r)) text skip found in
            rw (split_at text (c ∷ cs) skip at_eof found at) (
              finish_progress (c ∷ cs) skip at_eof (length text) (token_end s (c ∷ cs) none 0)
                (closed_bounds (c ∷ cs) none 0) (token_end-ends (c ∷ cs) none 0) (omega arith)
                (omega arith))
      ]
