-- ===== src/EspNow/Integrity.antt =====
-- Where the messages of a reassembler come from, whatever payloads arrive from whatever sources.
use microfips.Base.{
  ℕ, zero, suc, ◌+◌, ◌≡◌, List, [], ◌∷◌, ◌++◌, Option, none, some, true, false, length, take, drop,
  take-append_self, length-replicate, subst, ◌⊎◌, arith, refl, ap, Bool-cases, inl, inr,
}
use microfips.Bytes.{eq_bytes, eq_bytes_sound}
use microfips.Exec.{Exec, ok, Absent, ◌>>=◌}
use microfips.Exec.Post.{returned}
use microfips.EspNow.Frag.{
  Reassembler, SrcReassembler, src_new, note_src, push, push_from, is_last, idx_of, new,
}
use microfips.EspNow.Reassembly.{IsWhole, Continues, Outcome, push_outcome, Outcome-IsWhole}

-- A call of `push`: the source and the payload.
abbrev pub Call : Type 0
Call = List ℕ × List ℕ

-- The newest `k` calls, the newest first, come from `src` and carry the fragments 0 to `k - 1` of
-- message `id`, none of them the last one: `m` is their chunks in order.
abbrev pub Parts : (src : List ℕ) (id k : ℕ) (calls : List Call) (m : List ℕ) → Type 0
Parts src id zero calls m = m ≡ []
Parts src id (suc k) [] m = ⊥
Parts src id (suc k) ((from, payload) ∷ calls) m =
    (flags : ℕ) × (chunk : List ℕ) × (before : List ℕ) × (from ≡ src)
    × (payload ≡ id ∷ flags ∷ chunk)
    × (idx_of flags ≡ k)
    × (is_last flags ≡ false)
    × (m ≡ before ++ chunk)
    × Parts src id k calls before

-- A result that is a message: the payload is the last fragment of it, and the calls just before
-- carry the fragments before that one, from the same source.
abbrev pub IsFrom : (src payload : List ℕ) (calls : List Call) → Option (List ℕ) → Type 0
IsFrom src payload calls none = Unit
IsFrom src payload calls (some m) =
    (id : ℕ) × (flags : ℕ) × (chunk : List ℕ) × (before : List ℕ) × (payload ≡ id ∷ flags ∷ chunk)
    × (is_last flags ≡ true)
    × (m ≡ before ++ chunk)
    × Parts src id (idx_of flags) calls before

-- The message in progress.
abbrev Tracks : Reassembler → (src : List ℕ) (calls : List Call) → Type 0
Tracks r src calls =
    IsWhole r × (r.active ≡ true → Parts src r.msg_id r.next_idx calls (take r.len r.buf))

continued-Parts :
    (r : Reassembler) (src : List ℕ) (calls : List Call) (id idx : ℕ) (m : List ℕ)
    → Tracks r src calls
    → Continues r id idx m
    → Parts src id idx calls m
continued-Parts r src calls id idx m t (inl (first, nothing)) = rw first nothing
continued-Parts r src calls id idx m t (inr (on, same_id, next, same)) =
    rw (same_id, next, same) (t.1 on)

outcome-Tracks :
    (r : Reassembler) (src : List ℕ) (calls : List Call) (payload : List ℕ)
    (one : Option (List ℕ) × Reassembler)
    → Tracks r src calls
    → Outcome r payload one
    → Tracks one.1 src ((src, payload) ∷ calls) × IsFrom src payload calls one.0
outcome-Tracks r src calls _ _ t (Outcome.drops _ r' whole off) = ((whole, λ on. cc), tt)
outcome-Tracks r src calls _ _ t (Outcome.grows id flags m chunk rest goes_on whole fits) =
    let parts = continued-Parts r src calls id (idx_of flags) m t goes_on in
    let whole' = Outcome-IsWhole r _ _ (Outcome.grows id flags m chunk rest goes_on whole fits) in
    elim (Bool-cases (is_last flags)) [
      | inl last ↦ rw last ((whole', λ on. cc), (id, flags, chunk, m, refl, last, refl, parts))
      | inr more ↦
          let next : idx_of flags + 1 ≡ suc (idx_of flags) = omega arith in
          rw more (
            (
              whole',
              λ on.
                  rw (next, take-append_self (m ++ chunk) (drop (length chunk) rest))
                    (flags, chunk, m, refl, refl, refl, more, refl, parts),
            ),
            tt,
          )
    ]

-- The state that a payload from `src` finds, once the source is noted.
noted :
    (s : SrcReassembler) (known src : List ℕ) (calls : List Call)
    → s.src ≡ some known
    → Tracks s.reassembler known calls
    → Tracks (note_src s src).reassembler src calls × ((note_src s src).src ≡ some src)
noted s known src calls e t = elim (Bool-cases (eq_bytes known src)) [
  | inl same ↦
      let equal = eq_bytes_sound known src same in
      rw (e, same) (subst (λ k. Tracks s.reassembler k calls) equal t, ap some equal)
  | inr other ↦ rw (e, other) ((t.0, λ on. cc), refl)
]

-- After these calls, the newest first, of a new reassembler.
unfoldable pub after_calls : List Call → Exec Absent SrcReassembler
after_calls [] = ok src_new
after_calls ((src, payload) ∷ calls) = do
  s ← after_calls calls
  one ← push_from s src payload
  ok one.1

-- Before any call no source is known, and then the newest one is.
abbrev TracksAll : SrcReassembler → List Call → Type 0
TracksAll s calls =
    ((s.src ≡ none) × IsWhole s.reassembler × (s.reassembler.active ≡ false))
    ⊎ ((known : List ℕ) × (s.src ≡ some known) × Tracks s.reassembler known calls)

noted_all :
    (s : SrcReassembler) (src : List ℕ) (calls : List Call)
    → TracksAll s calls
    → Tracks (note_src s src).reassembler src calls × ((note_src s src).src ≡ some src)
noted_all s src calls (inl (e, whole, off)) = rw e ((whole, λ on. cc), refl)
noted_all s src calls (inr (known, e, t)) = noted s known src calls e t

-- What a call gives.
abbrev PushedFrom : (s : SrcReassembler) (src payload : List ℕ) (calls : List Call) → Type 0
PushedFrom s src payload calls =
    (out : Option (List ℕ)) × (s' : SrcReassembler) × (push_from s src payload ≡ ok (out, s'))
    × TracksAll s' ((src, payload) ∷ calls)
    × IsFrom src payload calls out

push_from_lem :
    (s : SrcReassembler) (src payload : List ℕ) (calls : List Call)
    → TracksAll s calls
    → PushedFrom s src payload calls
unfolding push_from
push_from_lem s src payload calls t =
    let (tracks, known) = noted_all s src calls t in
    let r = (note_src s src).reassembler in
    let (one, pushed, outcome) =
      returned (Outcome r payload) (push r payload) (push_outcome r payload tracks.0) in
    let (tracks', from) = outcome-Tracks r src calls payload one tracks outcome in
    (
      one.0,
      record (note_src s src) { reassembler = one.1 },
      rw pushed,
      inr (src, known, tracks'),
      from,
    )

after_calls_track :
    (calls : List Call) → (s : SrcReassembler) × (after_calls calls ≡ ok s) × TracksAll s calls
unfolding after_calls src_new new
after_calls_track [] =
    (src_new, refl, inl (refl, (length-replicate {A = ℕ} 2048 0, omega arith), refl))
after_calls_track ((src, payload) ∷ calls) =
    let (s, e, t) = after_calls_track calls in
    let (out, s', e', t', from) = push_from_lem s src payload calls t in (s', rw (e, e'), t')

-- Whatever calls a new `SrcReassembler` has seen, and whatever payload comes next: it does not
-- panic, and a message that it returns then is made of the chunks of this payload and of the calls
-- just before it, all from the same source and with the same message id, their indices counting
-- up from 0 to the index of this payload, which alone has the flag of the last fragment.
pub message-IsFrom :
    (calls : List Call) (src payload : List ℕ)
    → (s : SrcReassembler) × (out : Option (List ℕ)) × (s' : SrcReassembler) × (after_calls calls
        ≡ ok s)
      × (push_from s src payload ≡ ok (out, s'))
      × IsFrom src payload calls out
message-IsFrom calls src payload =
    let (s, e, t) = after_calls_track calls in
    let (out, s', e', t', from) = push_from_lem s src payload calls t in (s, out, s', e, e', from)
