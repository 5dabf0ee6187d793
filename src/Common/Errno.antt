-- ===== src/Common/Errno.antt =====
-- Errors of common/common.go, and the exporter's use of them in LinkMetrics.Collect of
-- app/dpdk-exporter/metrics.go.

use go_dpdk.Base.{
  ℕ, zero, suc, ◌+◌, ◌-◌, ◌^◌, Bool, true, false, ◌≡◌, ◌≢◌, ◌↔◌, refl, arith, ◌==◌, if◌then◌else◌,
  ℤ, pos, negsuc,
}

-- An error value: nil, a variable of the package, the text for a number that is none of the C
-- library's, and a syscall.Errno.
pub data Error : Type 0 where
  no_error : Error
  err_no_config : Error
  err_secondary : Error
  err_max_errno : Error
  err_min_errno : Error
  not_match : ℤ → Error
  syscall_errno : ℕ → Error

-- The numbers that the C library gives its own errors.
pub record Codes : Type 0 where
  pub no_config : ℕ
  pub secondary : ℕ
  pub max_errno : ℕ
  pub min_errno : ℕ

-- `n = -n` on a negative int64, which keeps the least one.
abbrev pub negated : ℤ → ℤ
negated (pos n) = pos n
negated (negsuc n) = if n == 2 ^ 63 - 1 then negsuc n else pos (n + 1)

abbrev pub matched : Codes → ℤ → Error
matched codes (negsuc n) = not_match (negsuc n)
matched codes (pos n) =
    if n == codes.no_config
    then err_no_config
    else if n == codes.secondary
    then err_secondary
    else if n == codes.max_errno
    then err_max_errno
    else if n == codes.min_errno
    then err_min_errno
    else not_match (pos n)

unfoldable pub errno : Codes → ℤ → Error
errno codes (pos zero) = no_error
errno codes (pos (suc n)) = matched codes (pos (suc n))
errno codes (negsuc n) = matched codes (negated (negsuc n))

-- IntErr and IntToErr, at a signed integer.
unfoldable pub int_err : Codes → ℤ → Error
unfolding errno
int_err codes n = errno codes n

unfoldable pub int_to_err : Codes → ℤ → Error
unfolding errno
int_to_err codes x = errno codes x

-- IntOrErr, at a signed integer.
unfoldable pub int_or_err : Codes → ℤ → ℕ × Error
unfolding errno
int_or_err codes (pos x) = (x, no_error)
int_or_err codes (negsuc x) = (0, errno codes (negsuc x))

-- RteErrno, by the value of rte_errno.
unfoldable pub rte_errno : Codes → ℤ → Error
unfolding errno
rte_errno codes n = errno codes n

-- `err == syscall.ENOTSUP`, which is number 95.
abbrev pub is_enotsup : Error → Bool
is_enotsup (syscall_errno n) = n == 95
is_enotsup _ = false

-- What LinkMetrics.Collect returns, and whether it exports the link, by the error of EthLinkGet.
unfoldable pub collect_link : Error → Error × Bool
collect_link no_error = (no_error, true)
collect_link err_no_config = (err_no_config, false)
collect_link err_secondary = (err_secondary, false)
collect_link err_max_errno = (err_max_errno, false)
collect_link err_min_errno = (err_min_errno, false)
collect_link (not_match n) = (not_match n, false)
collect_link (syscall_errno n) =
    if is_enotsup (syscall_errno n) then (no_error, false) else (syscall_errno n, false)

-- An error is nil exactly where the number is 0, for every value of the C library's numbers.
pub errno-no_error : (codes : Codes) (n : ℤ) → (int_err codes n ≡ no_error) ↔ (n ≡ pos 0)
unfolding int_err errno
errno-no_error codes (pos zero) = (λ e. refl, λ e. refl)
errno-no_error codes (pos (suc n)) = (λ e. ground arith, λ e. absurd cc)
errno-no_error codes (negsuc n) = (λ e. ground arith, λ e. absurd cc)

-- IntOrErr keeps a number that is not negative and has no error then; of a negative one it makes
-- 0 and the error of IntErr, which is not nil.
pub int_or_err_lem :
    (codes : Codes) (x : ℤ) (n : ℕ) (err : Error)
    → int_or_err codes x ≡ (n, err)
    → (err ≡ no_error → x ≡ pos n) × (err ≢ no_error → (n ≡ 0) × (err ≡ int_err codes x))
unfolding int_or_err int_err errno
int_or_err_lem codes (pos x) n err e = (λ p. ground arith, λ q. absurd (q (ground arith)))
int_or_err_lem codes (negsuc x) n err e = (λ p. ground arith, λ q. (ground arith, ground arith))

-- The exporter's test for ENOTSUP never holds for an error that was made from a return code: where
-- the code is not 0 Collect returns an error, and exports nothing.
pub collect_link-errno :
    (codes : Codes) (n : ℤ)
    → n ≢ pos 0
    → (collect_link (int_err codes n) ≡ (int_err codes n, false))
      × ((collect_link (int_err codes n)).0 ≢ no_error)
unfolding collect_link int_err errno
collect_link-errno codes (pos zero) nonzero = absurd (nonzero refl)
collect_link-errno codes (pos (suc n)) nonzero = (ground arith, λ e. ground arith)
collect_link-errno codes (negsuc n) nonzero = (ground arith, λ e. ground arith)
