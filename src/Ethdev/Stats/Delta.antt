-- ===== src/Ethdev/Stats/Delta.antt =====
-- The differences, counter by counter.
use go_dpdk.Base.{
  ℕ, suc, ◌+◌, ◌-◌, ◌^◌, ◌<◌, ◌≡◌, ◌⊎◌, refl, sym, ap, ◌∙◌, inl, inr, arith, true, false, ◌&&◌,
  List, [], ◌∷◌, ◌++◌, Option, none, some, ltb, ◌==◌, sub64, if◌then◌else◌, pos, negsuc, Bool-cases,
  ℕ_discrete,
}
use go_dpdk.Ethdev.Stats.{
  Xstat, search_loop, search_xstat, value_at, put_value, diff_old, diff_delta, xstat_diff,
}

-- The value of a counter in an array of them: the first that has its index.
unfoldable pub find : List Xstat → (idx : ℕ) → Option ℕ
find [] idx = none
find (x ∷ xs) idx = if x.index == idx then some x.value else find xs idx

-- Where a counter stands.
record IsAt (xs : List Xstat) (idx k : ℕ) : Type 0 where
  value : find xs idx ≡ some (value_at xs k)
  put : (v i : ℕ) → find (put_value xs k v) i ≡ (if idx == i then some v else find xs i)

search_loop-find :
    (xs : List Xstat) (idx n : ℕ)
    → ((search_loop xs idx n ≡ negsuc 0) × (find xs idx ≡ none))
      ⊎ ((k : ℕ) × (search_loop xs idx n ≡ pos (n + k)) × IsAt xs idx k)
unfolding search_loop find value_at put_value
search_loop-find [] idx n = inl (refl, refl)
search_loop-find (x ∷ xs) idx n = elim (ℕ_discrete x.index idx) [
  | yes here ↦
      let same : (x.index == idx) ≡ true = ground (arith, here) in
      inr (
        0,
        rw same (ap pos (omega arith)),
        record { value = rw same refl; put = λ v i. rw here (ground arith) },
      )
  | no there ↦
      let other : (x.index == idx) ≡ false = ground (arith, there) in
      elim (search_loop-find xs idx (n + 1)) [
        | inl (missing, unseen) ↦ inl (rw (other, missing) refl, rw (other, unseen) refl)
        | inr (k, at, is) ↦ inr (
          suc k,
          rw (other, at) (ap pos (omega arith)),
          record {
            value = rw (other, is.value) refl;
            put = λ v i. elim (Bool-cases (x.index == i)) [
              | inl first ↦
                  let else_ : (idx == i) ≡ false = ground (arith, there, first) in
                  rw (first, else_) refl
              | inr later ↦ rw (later, is.put v i) refl
            ];
          },
        )
      ]
]

find-append :
    (xs : List Xstat) (d : Xstat) (i : ℕ)
    → find xs d.index ≡ none
    → find (xs ++ (d ∷ [])) i ≡ (if d.index == i then some d.value else find xs i)
unfolding find
find-append [] d i e = refl
find-append (x ∷ xs) d i e = elim (Bool-cases (x.index == d.index)) [
  | inl same ↦ let seen : find (x ∷ xs) d.index ≡ some x.value = rw same refl in cc
  | inr apart ↦
      let missing : find xs d.index ≡ none = sym (rw apart refl) ∙ e in
      elim (Bool-cases (x.index == i)) [
        | inl first ↦
            let other : (d.index == i) ≡ false = ground (arith, first, apart) in
            rw (first, other) refl
        | inr later ↦ rw later (find-append xs d i missing)
      ]
]

-- What a counter has changed by: nothing where it was not known, was 0 or has not grown.
abbrev pub change : Option ℕ → (v : ℕ) → ℕ
change none v = 0
change (some f) v = if ltb 0 f && ltb f v then v - f else 0

search_xstat-find :
    (xs : List Xstat) (idx : ℕ)
    → ((search_xstat xs idx ≡ negsuc 0) × (find xs idx ≡ none))
      ⊎ ((k : ℕ) × (search_xstat xs idx ≡ pos k) × IsAt xs idx k)
unfolding search_xstat
search_xstat-find xs idx = elim (search_loop-find xs idx 0) [
  | inl missing ↦ inl missing
  | inr (k, at, is) ↦ inr (k, at ∙ ap pos (omega arith), is)
]

diff_old-find :
    (old : List Xstat) (d : Xstat)
    → d.value < 2 ^ 64
    → ((i : ℕ)
        → find (diff_old (search_xstat old d.index) old d).0 i
          ≡ (if d.index == i then some d.value else find old i))
      × ((diff_old (search_xstat old d.index) old d).1 ≡ change (find old d.index) d.value)
unfolding diff_old
diff_old-find old d low = elim (search_xstat-find old d.index) [
  | inl (missing, unseen) ↦ rw (missing, unseen) ((λ i. find-append old d i unseen), refl)
  | inr (k, at, is) ↦
      let f = value_at old k in
      elim (Bool-cases (ltb 0 f && ltb f d.value)) [
        | inl grown ↦
            let exact : sub64 d.value f ≡ d.value - f = ground (arith, low, grown) in
            rw (at, is.value, grown, exact) ((λ i. is.put d.value i), refl)
        | inr still ↦ rw (at, is.value, still) ((λ i. is.put d.value i), refl)
      ]
]

diff_delta-find :
    (delta : List Xstat) (d : Xstat) (i : ℕ)
    → find (diff_delta (search_xstat delta d.index) delta d) i
      ≡ (if d.index == i then some d.value else find delta i)
unfolding diff_delta
diff_delta-find delta d i = elim (search_xstat-find delta d.index) [
  | inl (missing, unseen) ↦ rw missing (find-append delta d i unseen)
  | inr (k, at, is) ↦ rw at (is.put d.value i)
]

-- No counter comes twice, and the values are uint64.
abbrev pub IsSample : List Xstat → Type 0
IsSample [] = Unit
IsSample (d ∷ ds) = ((find ds d.index ≡ none) × (d.value < 2 ^ 64)) × IsSample ds

-- What a counter of the old array, and of the differences, is afterwards.
abbrev pub renewed : (incoming old : Option ℕ) → Option ℕ
renewed none o = o
renewed (some v) o = some v

abbrev pub gained : (incoming old delta : Option ℕ) → Option ℕ
gained none o c = c
gained (some v) o c = some (change o v)

-- `XstatDiff` implements the change of maps from counters to values: for every counter, if it comes
-- in, the old array has its new value, and the differences have what it grew by, or 0 where the old
-- array did not have it, had it at 0, or had it no smaller; if it does not come in, both have what
-- they had. No counter comes in twice, and the incoming values are below 2 ^ 64.
pub xstat_diff-find :
    (incoming old delta : List Xstat) (i : ℕ)
    → IsSample incoming
    → (find (xstat_diff incoming old delta).0 i ≡ renewed (find incoming i) (find old i))
      × (find (xstat_diff incoming old delta).1 i
          ≡ gained (find incoming i) (find old i) (find delta i))
unfolding xstat_diff find
xstat_diff-find [] old delta i s = (refl, refl)
xstat_diff-find (d ∷ incoming) old delta i ((once, low), s) =
    let (known, changed) = diff_old-find old d low in
    let next = diff_old (search_xstat old d.index) old d in
    let d' : Xstat = record d { value = next.1 } in
    let put = diff_delta-find delta d' i in
    let (olds, deltas) =
      xstat_diff-find incoming next.0 (diff_delta (search_xstat delta d.index) delta d') i s in
    elim (ℕ_discrete d.index i) [
      | yes here ↦
          let test : (d.index == i) ≡ true = ground (arith, here) in
          let gone : find incoming i ≡ none = ap (find incoming) (sym here) ∙ once in
          let fresh : find next.0 i ≡ some d.value = known i ∙ rw test refl in
          let given : find (diff_delta (search_xstat delta d.index) delta d') i ≡ some next.1 =
            put ∙ rw test refl in
          let count : next.1 ≡ change (find old i) d.value =
            changed ∙ ap (λ j. change (find old j) d.value) here in
          rw test (
            olds ∙ ap (λ o. renewed o (find next.0 i)) gone ∙ fresh,
            deltas
                ∙ ap
                    (λ o.
                      gained o (find next.0 i)
                        (find (diff_delta (search_xstat delta d.index) delta d') i))
                    gone
                ∙ given
                ∙ ap some count,
          )
      | no there ↦
          let test : (d.index == i) ≡ false = ground (arith, there) in
          let kept : find next.0 i ≡ find old i = known i ∙ rw test refl in
          let left : find (diff_delta (search_xstat delta d.index) delta d') i ≡ find delta i =
            put ∙ rw test refl in
          rw test (
            olds ∙ ap (renewed (find incoming i)) kept,
            deltas
                ∙ ap
                    (λ o.
                      gained (find incoming i) o
                        (find (diff_delta (search_xstat delta d.index) delta d') i))
                    kept
                ∙ ap (gained (find incoming i) (find old i)) left,
          )
    ]
