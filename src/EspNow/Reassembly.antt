-- ===== src/EspNow/Reassembly.antt =====
-- What one payload does to a reassembler.
use microfips.Base.{
  ℕ, ◌+◌, ◌≡◌, ◌⊎◌, ◌≤◌, ◌<◌, List, [], ◌∷◌, ◌++◌, Option, none, some, Bool, true, false, ◌||◌, ltb,
  ◌==◌, ==_iff, not, if◌then◌else◌, length, length-append, length-drop, take, drop, le→ltb, lt→ltb,
  ◌!=◌, arith, refl, sym, ap, ◌∙◌, take-append-drop, length-take, Bool-cases, ltb→le, ltb→lt, inl,
  inr,
}
use microfips.Exec.{ok, Absent}
use microfips.Exec.Post.{Returns}
use microfips.Exec.Laws.{index_lem, slice-append, slice_from-append, copy_into-append}
use microfips.EspNow.Frag.{
  Reassembler, push, admit, append_chunk, finish_message, reset, is_last, idx_of, max_message,
  max_payload, max_chunk, header_len,
}

-- A reassembler whose buffer begins with the message `m`.
abbrev pub holding : (id idx : ℕ) (m rest : List ℕ) (active : Bool) → Reassembler
holding id idx m rest active = record {
  buf = m ++ rest;
  len = length m;
  msg_id = id;
  next_idx = idx;
  active = active;
}

-- What `push` returns for a chunk that goes on from `m`.
abbrev pub grown :
    (id idx : ℕ) (last : Bool) (m chunk rest : List ℕ) → Option (List ℕ) × Reassembler
grown id idx last m chunk rest = (
  if last then some (m ++ chunk) else none,
  holding id (idx + 1) (m ++ chunk) (drop (length chunk) rest) (not last),
)

finish_message-grown :
    (id idx : ℕ) (last : Bool) (m rest : List ℕ)
    → finish_message (holding id idx m rest true) last
      ≡ ok (if last then some m else none, holding id idx m rest (not last))
unfolding finish_message
finish_message-grown id idx true m rest =
    rw (slice-append {E = Absent} [] m rest 0 (length m) refl (omega arith))
finish_message-grown id idx false m rest = refl

append_chunk-grown :
    (id idx next : ℕ) (last : Bool) (m chunk rest : List ℕ)
    → length m + length rest ≡ max_message
    → length m + length chunk ≤ max_message
    → append_chunk (holding id next m rest true) idx last chunk
      ≡ ok (grown id idx last m chunk rest)
unfolding append_chunk
append_chunk-grown id idx next last m chunk rest whole fits =
    let n = length m + length chunk in
    let room : ltb max_message n ≡ false = le→ltb max_message n fits in
    rw (
      room,
      copy_into-append {E = Absent} m rest chunk (length m) n refl refl (omega arith),
      sym (length-append m chunk),
      finish_message-grown id (idx + 1) last (m ++ chunk) (drop (length chunk) rest),
    )

-- The buffer is whole and the message in it fits.
abbrev pub IsWhole : Reassembler → Type 0
IsWhole r = (length r.buf ≡ max_message) × (r.len ≤ max_message)

-- A fragment with this id and index goes on from the message `m`, or begins one.
abbrev pub Continues : Reassembler → (id idx : ℕ) (m : List ℕ) → Type 0
Continues r id idx m =
    ((idx ≡ 0) × (m ≡ []))
    ⊎ ((r.active ≡ true) × (id ≡ r.msg_id) × (idx ≡ r.next_idx) × (m ≡ take r.len r.buf))

-- A push drops the message in progress, or adds a chunk to the message that it goes on from.
pub data Outcome (r : Reassembler) : List ℕ → Option (List ℕ) × Reassembler → Type 0 where
  drops :
      (payload : List ℕ) (r' : Reassembler)
      → IsWhole r'
      → r'.active ≡ false
      → Outcome r payload (none, r')
  grows :
      (id flags : ℕ) (m chunk rest : List ℕ)
      → Continues r id (idx_of flags) m
      → length m + length rest ≡ max_message
      → length m + length chunk ≤ max_message
      → Outcome r (id ∷ flags ∷ chunk) (grown id (idx_of flags) (is_last flags) m chunk rest)

held :
    (buf : List ℕ) (len id next : ℕ) (active : Bool)
    → active ≡ true
    → len ≤ length buf
    → ◌≡◌ {A = Reassembler}
        (record { buf = buf; len = len; msg_id = id; next_idx = next; active = active })
        (holding id next (take len buf) (drop len buf) true)
held buf len id next active on fits =
    let full : length (take len buf) ≡ len = omega (arith, length-take len buf) in
    rw (on, take-append-drop len buf, full)

-- The payload of a fragment that is admitted goes on to the buffer.
push-admit :
    (r r' : Reassembler) (id flags : ℕ) (chunk : List ℕ)
    → length chunk ≤ max_chunk
    → admit r id (idx_of flags) ≡ some r'
    → push r (id ∷ flags ∷ chunk) ≡ append_chunk r' (idx_of flags) (is_last flags) chunk
unfolding push
push-admit r r' id flags chunk fits admitted =
    let payload : List ℕ = id ∷ flags ∷ chunk in
    let short : ltb (length payload) header_len ≡ false =
      le→ltb (length payload) header_len (omega arith) in
    let long : ltb max_payload (length payload) ≡ false =
      le→ltb max_payload (length payload) (omega arith) in
    rw (
      short,
      long,
      index_lem {E = Absent} payload 0 (omega arith),
      index_lem {E = Absent} payload 1 (omega arith),
      slice_from-append {E = Absent} (id ∷ flags ∷ []) chunk 2 refl,
      admitted,
    )

push-refused :
    (r : Reassembler) (id flags : ℕ) (chunk : List ℕ)
    → length chunk ≤ max_chunk
    → admit r id (idx_of flags) ≡ none
    → push r (id ∷ flags ∷ chunk) ≡ ok (none, reset r)
unfolding push
push-refused r id flags chunk fits refused =
    let payload : List ℕ = id ∷ flags ∷ chunk in
    let short : ltb (length payload) header_len ≡ false =
      le→ltb (length payload) header_len (omega arith) in
    let long : ltb max_payload (length payload) ≡ false =
      le→ltb max_payload (length payload) (omega arith) in
    rw (
      short,
      long,
      index_lem {E = Absent} payload 0 (omega arith),
      index_lem {E = Absent} payload 1 (omega arith),
      slice_from-append {E = Absent} (id ∷ flags ∷ []) chunk 2 refl,
      refused,
    )

-- The first fragment of a message, at any reassembler.
pub push-starts :
    (r : Reassembler) (id flags : ℕ) (chunk : List ℕ)
    → length r.buf ≡ max_message
    → length chunk ≤ max_chunk
    → idx_of flags ≡ 0
    → push r (id ∷ flags ∷ chunk) ≡ ok (grown id 0 (is_last flags) [] chunk r.buf)
unfolding admit
push-starts r id flags chunk whole fits first =
    push-admit r (holding id 0 [] r.buf true) id flags chunk fits (rw first)
    ∙ rw first
        (append_chunk-grown id 0 0 (is_last flags) [] chunk r.buf (omega arith) (omega arith))

admit-next :
    (r : Reassembler) (id idx : ℕ)
    → r.active ≡ true
    → id ≡ r.msg_id
    → idx ≡ r.next_idx
    → (idx == 0) ≡ false
    → admit r id idx ≡ some r
unfolding admit
admit-next r id idx on same_id next later = ground arith

-- A further fragment of the message in progress.
pub push-continues :
    (id idx flags : ℕ) (m chunk rest : List ℕ)
    → length m + length rest ≡ max_message
    → length m + length chunk ≤ max_message
    → length chunk ≤ max_chunk
    → idx_of flags ≡ idx
    → (idx == 0) ≡ false
    → push (holding id idx m rest true) (id ∷ flags ∷ chunk)
      ≡ ok (grown id idx (is_last flags) m chunk rest)
push-continues id idx flags m chunk rest whole room fits same later =
    let r = holding id idx m rest true in
    push-admit r r id flags chunk fits
      (admit-next r id (idx_of flags) refl refl same (rw same later))
    ∙ rw same (append_chunk-grown id idx idx (is_last flags) m chunk rest whole room)

-- The state that a fragment is admitted to holds the message that it continues.
admitted_cases :
    (r : Reassembler) (id idx : ℕ)
    → IsWhole r
    → (admit r id idx ≡ none)
      ⊎ ((m : List ℕ) × (rest : List ℕ) × (next : ℕ) × (admit r id idx
            ≡ some (holding id next m rest true))
          × Continues r id idx m
          × (length m + length rest ≡ max_message)
          × (length m ≤ max_message))
unfolding admit
admitted_cases r id idx (whole, fits) = elim (Bool-cases (idx == 0)) [
  | inl first ↦
      inr ([], r.buf, 0, rw first, inl ((==_iff idx 0).0 first, refl), omega arith, omega arith)
  | inr later ↦ elim (Bool-cases (not r.active || id != r.msg_id || idx != r.next_idx)) [
    | inl other ↦ inl (rw (later, other))
    | inr same ↦
        let on : r.active ≡ true = ground arith in
        let same_id : id ≡ r.msg_id = ground arith in
        let next : idx ≡ r.next_idx = ground arith in
        inr (
          take r.len r.buf,
          drop r.len r.buf,
          r.next_idx,
          rw (later, same, same_id)
              (ap some (held r.buf r.len r.msg_id r.next_idx r.active on (omega arith))),
          inr (on, same_id, next, refl),
          omega (arith, length-take r.len r.buf, length-drop r.len r.buf),
          omega (arith, length-take r.len r.buf),
        )
  ]
]

append_chunk_full :
    (id idx next : ℕ) (last : Bool) (m chunk rest : List ℕ)
    → max_message < length m + length chunk
    → append_chunk (holding id next m rest true) idx last chunk
      ≡ ok (none, holding id next m rest false)
unfolding append_chunk
append_chunk_full id idx next last m chunk rest over =
    rw (lt→ltb max_message (length m + length chunk) over)

push_fragment :
    (r : Reassembler) (id flags : ℕ) (chunk : List ℕ)
    → IsWhole r
    → length chunk ≤ max_chunk
    → Returns (Outcome r (id ∷ flags ∷ chunk)) (push r (id ∷ flags ∷ chunk))
push_fragment r id flags chunk w short = elim (admitted_cases r id (idx_of flags) w) [
  | inl refused ↦
      rw (push-refused r id flags chunk short refused) (Outcome.drops _ (reset r) w refl)
  | inr (m, rest, next, admitted, goes_on, whole, fits) ↦
      rw (push-admit r (holding id next m rest true) id flags chunk short admitted)
        (elim (Bool-cases (ltb max_message (length m + length chunk))) [
          | inl over ↦
              rw
                (append_chunk_full id (idx_of flags) next (is_last flags) m chunk rest
                  (ltb→lt _ _ over))
                (Outcome.drops _ (holding id next m rest false)
                  (omega (arith, length-append m rest), fits) refl)
          | inr room ↦
              rw
                (append_chunk-grown id (idx_of flags) next (is_last flags) m chunk rest whole
                  (ltb→le _ _ room))
                (Outcome.grows id flags m chunk rest goes_on whole (ltb→le _ _ room))
        ])
]

-- Any payload: there is no panic, and the message in progress is dropped or grows.
pub push_outcome :
    (r : Reassembler) (payload : List ℕ) → IsWhole r → Returns (Outcome r payload) (push r payload)
unfolding push
push_outcome r [] w = Outcome.drops [] (reset r) w refl
push_outcome r (b ∷ []) w = Outcome.drops (b ∷ []) (reset r) w refl
push_outcome r (id ∷ flags ∷ chunk) w =
    elim (Bool-cases (ltb max_payload (length (id ∷ flags ∷ chunk)))) [
      | inl long ↦
          let some_header : ltb (length (id ∷ flags ∷ chunk)) header_len ≡ false =
            le→ltb (length (id ∷ flags ∷ chunk)) header_len (omega arith) in
          rw (some_header, long) (Outcome.drops _ (reset r) w refl)
      | inr fits ↦
          push_fragment r id flags chunk w
            (omega (arith, ltb→le max_payload (length (id ∷ flags ∷ chunk)) fits))
    ]

pub Outcome-IsWhole :
    (r : Reassembler) (payload : List ℕ) (one : Option (List ℕ) × Reassembler)
    → Outcome r payload one
    → IsWhole one.1
Outcome-IsWhole r _ _ (Outcome.drops _ r' whole off) = whole
Outcome-IsWhole r _ _ (Outcome.grows id flags m chunk rest goes_on whole fits) = (
  omega (
    arith,
    length-append (m ++ chunk) (drop (length chunk) rest),
    length-append m chunk,
    length-drop (length chunk) rest,
  ),
  omega (arith, length-append m chunk),
)
