-- ===== src/Negotiation/Version.antt =====
-- `agree_version` finds the greatest common version.
use microfips.Base.{ℕ, ◌≤◌, min, ◌≡◌, arith}
use microfips.Exec.{ok}
use microfips.Negotiation.{NegotiationHeader, agree_version}

-- A version of a header's range.
abbrev pub Supports : NegotiationHeader → ℕ → Type 0
Supports header v = (header.version_min ≤ v) × (v ≤ header.version_max)

-- Two sides that both support some version agree, on a version that both support and that is no
-- older than it; so the agreed version is the greatest common one.
pub agree_version_greatest :
    (ours theirs : NegotiationHeader) (u : ℕ)
    → Supports ours u
    → Supports theirs u
    → (v : ℕ) × (agree_version ours theirs ≡ ok v) × Supports ours v × Supports theirs v × (u ≤ v)
unfolding agree_version
agree_version_greatest ours theirs u (a, b) (c, d) = (
  min ours.version_max theirs.version_max,
  ground arith,
  (omega arith, omega arith),
  (omega arith, omega arith),
  omega arith,
)

-- Where two sides agree, both support the version.
pub agree_version-Supports :
    (ours theirs : NegotiationHeader) (v : ℕ)
    → agree_version ours theirs ≡ ok v
    → Supports ours v × Supports theirs v
unfolding agree_version
agree_version-Supports ours theirs v e = ground arith
