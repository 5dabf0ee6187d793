-- ===== src/Common/Split.antt =====
-- SplitFunc of common/parse.go, which cuts the first token off a text. The runes of a text are of
-- one byte each, so that a rune is a number below 128 and its width is 1.
pub mod Machine
pub mod Word
mod Tests
use go_dpdk.Base.{
  ℕ, zero, suc, ◌+◌, Bool, true, false, not, ◌||◌, ◌==◌, if◌then◌else◌, Option, none, some, List,
  [], ◌∷◌, length, take, drop,
}

-- `Splitter`. The closing quote is `none` where the rune opens none.
pub record Splitter : Type 0 where
  pub is_space : ℕ → Bool
  pub is_quote : ℕ → Option ℕ
  pub allow_open_quote : Bool

-- DefaultSplitter: unicode.IsSpace on one byte, and the two quotation marks.
abbrev pub default_splitter : Splitter
default_splitter = record {
  is_space = λ r. r == 9 || r == 10 || r == 11 || r == 12 || r == 13 || r == 32;
  is_quote = λ r. if r == 34 then some 34 else if r == 39 then some 39 else none;
  allow_open_quote = false;
}

abbrev pub is_some : Option ℕ → Bool
is_some none = false
is_some (some q) = true

-- bytes.IndexFunc
unfoldable pub index_func : (ℕ → Bool) → List ℕ → Option ℕ
index_func f [] = none
index_func f (c ∷ cs) =
    let later = index_func f cs in
    if f c then some 0 else elim later [ none ↦ none | some k ↦ some (suc k) ]

-- utf8.DecodeRune; RuneError where there is no byte.
abbrev pub decode_rune : List ℕ → ℕ
decode_rune [] = 0xfffd
decode_rune (c ∷ cs) = c

-- How the search for the end of a token ends: at a space, in the text of the token, or inside a
-- quote. `no_fuel` is not a result of the code.
pub data Ended : Type 0 where
  closed : ℕ → Ended
  unterminated : Ended
  open_quote : Ended
  no_fuel : Ended

pub record Result : Type 0 where
  pub advance : ℕ
  pub token : Option (List ℕ)
  pub is_open : Bool

-- The body of the loop from the rune `n` bytes in, which is a space or the quote that `q` closes;
-- `tail` is the text past it and `loop` the next round.
unfoldable pub past_rune : Option ℕ → List ℕ → ℕ → (List ℕ → ℕ → Ended) → Ended
unfolding index_func
past_rune none tail n loop = closed n
past_rune (some q) tail n loop = elim (index_func (λ c. c == q) tail) [
  | none ↦ open_quote
  | some j ↦ loop (drop (suc j) tail) (n + 1 + suc j)
]

module _ (s : Splitter) where
  abbrev pub is_space_or_quote : ℕ → Bool
  is_space_or_quote r = is_some (s.is_quote r) || s.is_space r

  -- The `for` loop; `rest` is `data[n:]`.
  unfoldable pub scan_token : ℕ → List ℕ → ℕ → Ended
  unfolding index_func past_rune
  scan_token zero rest n = no_fuel
  scan_token (suc fuel) rest n = elim (index_func is_space_or_quote rest) [
    | none ↦ unterminated
    | some k ↦
        past_rune (s.is_quote (decode_rune (drop k rest))) (drop (suc k) rest) (n + k)
          (scan_token fuel)
  ]

  -- What follows the loop; `d` is the text from the token on, `skip` bytes in.
  unfoldable pub finish : Ended → ℕ → List ℕ → Bool → Result
  finish (closed e) skip d at_eof = record {
    advance = skip + e + 1;
    token = some (take e d);
    is_open = false;
  }
  finish unterminated skip d false = record { advance = skip; token = none; is_open = false }
  finish unterminated skip d true = record {
    advance = skip + length d;
    token = some d;
    is_open = false;
  }
  finish open_quote skip d false = record { advance = skip; token = none; is_open = false }
  finish open_quote skip d true = record {
    advance = skip + length d;
    token = some d;
    is_open = not s.allow_open_quote;
  }
  finish no_fuel skip d at_eof = record { advance = skip; token = none; is_open = false }

  unfoldable pub split_func : List ℕ → Bool → Result
  unfolding scan_token finish index_func
  split_func text at_eof = elim (index_func (λ r. not (s.is_space r)) text) [
    | none ↦ record { advance = length text; token = none; is_open = false }
    | some skip ↦ let d = drop skip text in finish (scan_token (length d + 1) d 0) skip d at_eof
  ]
