-- ===== src/Common/Split/Tests.antt =====
-- Runs of SplitFunc with the default splitter.
use go_dpdk.Base.{ℕ, ◌≡◌, refl, arith, false, none, some, List, [], ◌∷◌, ◌++◌}
use go_dpdk.Common
use go_dpdk.Common.Split.{Splitter, default_splitter, scan_token, split_func, Result}
use go_dpdk.Common.Split.Machine.{token_end, scan_token-token_end}
use go_dpdk.Common.Split.Word.{split_func-word}

-- -m="1, 2" and, after a space, -d
abbrev word : List ℕ
word = 45 ∷ 109 ∷ 61 ∷ 34 ∷ 49 ∷ 44 ∷ 32 ∷ 50 ∷ 34 ∷ []

abbrev rest : List ℕ
rest = 45 ∷ 100 ∷ []

scan_token-token_end_example :
    scan_token default_splitter 13 (word ++ 32 ∷ rest) 0
    ≡ token_end default_splitter (word ++ 32 ∷ rest) none 0
scan_token-token_end_example =
    scan_token-token_end default_splitter 13 (word ++ 32 ∷ rest) 0 (omega arith)

word_ends : token_end default_splitter word none 0 ≡ Common.Split.unterminated
unfolding token_end
word_ends = refl

split_func-word_example :
    split_func default_splitter (32 ∷ 9 ∷ (word ++ 32 ∷ rest)) false
    ≡ record { advance = 12; token = some word; is_open = false }
split_func-word_example =
    split_func-word default_splitter (32 ∷ 9 ∷ []) word rest 32 false (refl, (refl, tt))
      (refl, word_ends) refl refl
