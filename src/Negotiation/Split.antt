-- ===== src/Negotiation/Split.antt =====
-- The split of a handshake payload.
use microfips.Base.{
  ℕ, List, [], ◌++◌, length, ◌≤◌, ◌≡◌, arith, ltb, Bool-cases, inl, inr, Option, none, some,
}
use microfips.Base.{ltb→lt, append-nil, take-append-drop, length-take, ◌-◌}
use microfips.Exec.Post.{Returns}
use microfips.Exec.Laws.{slice_lem, slice_from_lem}
use microfips.Negotiation.{split_handshake_noise}

abbrev pub extra_bytes : Option (List ℕ) → List ℕ
extra_bytes none = []
extra_bytes (some extra) = extra

-- The base and the extra bytes of a payload of a handshake whose base has `base_size` bytes.
abbrev pub IsSplit : ℕ → List ℕ → List ℕ × Option (List ℕ) → Type 0
IsSplit base_size payload parts =
    (parts.0 ++ extra_bytes parts.1 ≡ payload) × (length parts.0 ≤ base_size)

-- A payload of any length is split with no panic into a base of at most `base_size` bytes and the
-- bytes behind it, and together they are the payload.
pub split_handshake_noise-IsSplit :
    (payload : List ℕ) (base_size : ℕ)
    → Returns (IsSplit base_size payload) (split_handshake_noise payload base_size)
unfolding split_handshake_noise
split_handshake_noise-IsSplit payload base_size =
    elim (Bool-cases (ltb base_size (length payload))) [
      | inl longer ↦
          let long = ltb→lt base_size (length payload) longer in
          let width : base_size - 0 ≡ base_size = omega arith in
          rw
            (
              longer,
              slice_lem payload 0 base_size (omega arith) (omega arith),
              slice_from_lem payload base_size (omega arith),
              width,
            )
            (take-append-drop base_size payload, omega (arith, length-take base_size payload))
      | inr short ↦ rw short (append-nil payload, ground arith)
    ]
