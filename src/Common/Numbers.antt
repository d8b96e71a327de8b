-- ===== src/Common/Numbers.antt =====
-- Ceiling division and rounding down to a multiple, as vLLM's `cdiv` and Python's `n // k * k`.
use Prim.Native.Nat.{ℕ, ◌+◌, ◌-◌, ◌*◌, ◌/◌, ◌≤◌, ◌<◌}
use native.Mathlib.Omega.{arith}

-- cdiv(n, k) for k > 0, which vLLM defines as -(n // -k)
abbrev pub cdiv : ℕ → ℕ → ℕ
cdiv n k = (n + (k - 1)) / k

-- n // k * k
abbrev pub align : ℕ → ℕ → ℕ
align n k = n / k * k

pub align-le : (n k : ℕ) → align n k ≤ n
align-le n k = grind arith

pub lt-align : (n k : ℕ) → 0 < k → n < align n k + k
lt-align n k h = grind arith

pub le-cdiv : (n k : ℕ) → 0 < k → n ≤ cdiv n k * k
le-cdiv n k h = grind arith

pub cdiv-lt : (n k : ℕ) → 0 < k → cdiv n k * k < n + k
cdiv-lt n k h = grind arith
