-- ===== src/EspNow/RoundTrip.antt =====
-- Messages that are cut into fragments and put together again.
use microfips.Base.{
  ℕ, zero, suc, ◌+◌, ◌-◌, ◌*◌, ◌%◌, ◌≡◌, ◌≤◌, ◌<◌, List, [], ◌∷◌, ◌++◌, Option, some, Bool, true,
  false, length, length-append, length-take, length-drop, take, drop, take-append-drop, le→ltb,
  arith, refl, sym, subst, ap, ◌∙◌, Bool-cases, inl, inr, append_assoc, append-nil,
}
use microfips.Exec.{Exec, ok, err, panic, Absent, ◌>>=◌}
use microfips.EspNow.Frag.{
  Reassembler, fragments, payloads, push, receive, completed, transmit, transmit_all, send_begun,
  is_last, idx_of, no_bytes, max_message, max_payload, max_chunk,
}
use microfips.EspNow.Reassembly.{holding, grown, push-starts, push-continues}
use microfips.EspNow.Pieces.{
  flags_of, flags_lem, cut, running, payloads_end, payloads_first, receive_first, no_bytes_iff,
  some_bytes,
}

-- Where it has got: the next fragment of message `id`, number `idx`, goes on from `m`.
abbrev IsReady : Reassembler → (id idx : ℕ) (m tail : List ℕ) → Type 0
IsReady r id idx m tail =
    (flags : ℕ) (chunk : List ℕ)
    → length chunk ≤ max_chunk
    → length m + length chunk ≤ max_message
    → idx_of flags ≡ idx
    → push r (id ∷ flags ∷ chunk) ≡ ok (grown id idx (is_last flags) m chunk tail)

abbrev pub AreShort : List (List ℕ) → Type 0
AreShort [] = Unit
AreShort (p ∷ ps) = (length p ≤ max_payload) × AreShort ps

-- The payloads are short, and a reassembler that is given them returns `message` only.
abbrev Delivers : Reassembler → List (List ℕ) → (message : List ℕ) → Type 0
Delivers r ps message =
    AreShort ps
    × ((r' : Reassembler) × (receive r ps ≡ ok (message ∷ [], r')) × (length r'.buf ≡ max_message))

push_ready :
    (id idx : ℕ) (last : Bool) (m chunk tail : List ℕ) (r : Reassembler)
    → IsReady r id idx m tail
    → idx < 128
    → length chunk ≤ max_chunk
    → length m + length chunk ≤ max_message
    → push r (id ∷ flags_of idx last ∷ chunk) ≡ ok (grown id idx last m chunk tail)
push_ready id idx last m chunk tail r ready low short fits =
    let (same, flag) = flags_lem idx last low in
    ready (flags_of idx last) chunk short fits same ∙ rw flag

-- The last fragment of a message.
deliver_last :
    (id idx : ℕ) (m chunk tail : List ℕ) (r : Reassembler)
    → IsReady r id idx m tail
    → idx < 128
    → length chunk ≤ max_chunk
    → length m + length chunk ≤ max_message
    → length m + length tail ≡ max_message
    → Delivers r ((id ∷ flags_of idx true ∷ chunk) ∷ []) (m ++ chunk)
unfolding receive
deliver_last id idx m chunk tail r ready low short fits whole = (
  (omega arith, tt),
  (
    holding id (idx + 1) (m ++ chunk) (drop (length chunk) tail) false,
    rw (push_ready id idx true m chunk tail r ready low short fits),
    omega (
      arith,
      length-append (m ++ chunk) (drop (length chunk) tail),
      length-append m chunk,
      length-drop (length chunk) tail,
    ),
  ),
)

-- A fragment and then those after it.
deliver_more :
    (id idx : ℕ) (m chunk left tail : List ℕ) (r : Reassembler) (ps : List (List ℕ))
    → IsReady r id idx m tail
    → idx < 128
    → length chunk ≤ max_chunk
    → length m + length chunk ≤ max_message
    → Delivers
        (holding id (idx + 1) (m ++ chunk) (drop (length chunk) tail) true)
        ps
        ((m ++ chunk) ++ left)
    → Delivers r ((id ∷ flags_of idx false ∷ chunk) ∷ ps) (m ++ (chunk ++ left))
deliver_more id idx m chunk left tail r ps ready low short fits (are_short, (r', got, whole)) = (
  (omega arith, are_short),
  (
    r',
    rw (
      receive_first r (id ∷ flags_of idx false ∷ chunk) ps (grown id idx false m chunk tail)
          (push_ready id idx false m chunk tail r ready low short fits),
      got,
      append_assoc m chunk left,
    ),
    whole,
  ),
)

-- What is left after a first fragment, in at most `k` fragments.
abbrev DeliversNext : ℕ → Type 0
DeliversNext k =
    (id idx : ℕ) (rest m tail : List ℕ)
    → length rest ≤ max_chunk * k
    → 0 < length rest
    → k + idx < 127
    → length m + length rest ≤ max_message
    → length m + length tail ≡ max_message
    → (ps : List (List ℕ)) × (payloads (suc k) (running id (idx + 1) rest false) ≡ ok ps)
      × Delivers (holding id (idx + 1) m tail true) ps (m ++ rest)

-- The rest of a message, in at most `k` fragments and one.
deliver_rest :
    (k : ℕ) (delivers_next : DeliversNext k) (id idx : ℕ) (rest m tail : List ℕ) (r : Reassembler)
    → length rest ≤ max_chunk * suc k
    → k + idx < 127
    → length m + length rest ≤ max_message
    → length m + length tail ≡ max_message
    → IsReady r id idx m tail
    → (ps : List (List ℕ)) × (payloads (suc (suc k)) (running id idx rest false) ≡ ok ps)
      × Delivers r ps (m ++ rest)
deliver_rest k delivers_next id idx rest m tail r few low fits whole ready =
    let n = cut rest in
    let chunk = take n rest in
    let left = drop n rest in
    let chunk_len : length chunk ≡ n = omega (arith, length-take n rest) in
    let joined : chunk ++ left ≡ rest = take-append-drop n rest in
    let first = payloads_first (suc k) id idx rest (omega arith) in
    elim (Bool-cases (no_bytes left)) [
      | inl done ↦
          let all : chunk ≡ rest =
            sym (append-nil chunk) ∙ ap (λ t. chunk ++ t) (sym (no_bytes_iff left done)) ∙ joined in
          (
            (id ∷ flags_of idx true ∷ chunk) ∷ [],
            rw (first, done, payloads_end k id (idx + 1) left),
            subst (λ t. Delivers r ((id ∷ flags_of idx true ∷ chunk) ∷ []) (m ++ t)) all
                (deliver_last id idx m chunk tail r ready (omega arith) (omega arith) (omega arith)
                  whole),
          )
      | inr more ↦
          let some_left = some_bytes left more in
          let left_len : length left ≡ length rest - n = length-drop n rest in
          let r' = holding id (idx + 1) (m ++ chunk) (drop (length chunk) tail) true in
          let whole' : length (m ++ chunk) + length (drop (length chunk) tail) ≡ max_message =
            omega (arith, length-append m chunk, length-drop (length chunk) tail) in
          let (ps, sent, delivered) =
            delivers_next id idx left (m ++ chunk) (drop (length chunk) tail) (omega arith)
              (omega arith) low (omega (arith, length-append m chunk)) whole' in
          (
            (id ∷ flags_of idx false ∷ chunk) ∷ ps,
            rw (first, more, sent),
            subst (λ t. Delivers r ((id ∷ flags_of idx false ∷ chunk) ∷ ps) (m ++ t)) joined
                (deliver_more id idx m chunk left tail r ps ready (omega arith) (omega arith)
                  (omega arith) delivered),
          )
    ]

deliver_next : (k : ℕ) → DeliversNext k
deliver_next zero id idx rest m tail few some_left low fits whole = absurd (omega arith)
deliver_next (suc k) id idx rest m tail few some_left low fits whole =
    deliver_rest k (deliver_next k) id (idx + 1) rest m tail (holding id (idx + 1) m tail true) few
      (omega arith) fits whole
      (λ flags chunk short room same.
        push-continues id (idx + 1) flags m chunk tail whole room short same (ground arith))

fragments_begin :
    (id : ℕ) (message : List ℕ)
    → length message ≤ max_message
    → fragments id message ≡ (some (running id 0 message false), (id + 1) % 256)
unfolding fragments
fragments_begin id message fits = rw (le→ltb max_message (length message) fits)

message-Delivers :
    (id : ℕ) (message : List ℕ) (r : Reassembler)
    → length message ≤ max_message
    → length r.buf ≡ max_message
    → (ps : List (List ℕ)) × (transmit id message ≡ ok (ps, (id + 1) % 256)) × Delivers r ps message
unfolding transmit
message-Delivers id message r fits whole =
    let (ps, sent, delivered) =
      deliver_rest 8 (deliver_next 8) id 0 message [] r.buf r (omega arith) (omega arith)
        (omega arith) (omega arith)
        (λ flags chunk short room' first. push-starts r id flags chunk whole short first) in
    (ps, ap send_begun (fragments_begin id message fits) ∙ rw sent, delivered)

-- Payloads that are pushed after others add their messages.
abbrev then_more :
    List (List ℕ)
    → Exec Absent (List (List ℕ) × Reassembler)
    → Exec Absent (List (List ℕ) × Reassembler)
then_more ms rest = do more ← rest; ok (ms ++ more.0, more.1)

then_more-append :
    (ms ns : List (List ℕ)) (rest : Exec Absent (List (List ℕ) × Reassembler))
    → then_more (ms ++ ns) rest ≡ then_more ms (then_more ns rest)
then_more-append ms ns (ok (ls, r)) = rw (append_assoc ms ns ls)
then_more-append ms ns (err e) = refl
then_more-append ms ns panic = refl

then_more-bind :
    (ms qs : List (List ℕ)) (got : Exec Absent (List (List ℕ) × Reassembler))
    → (do one ← then_more ms got; then_more one.0 (receive one.1 qs))
      ≡ then_more ms (do one ← got; then_more one.0 (receive one.1 qs))
then_more-bind ms qs (ok (ls, r)) = then_more-append ms ls (receive r qs)
then_more-bind ms qs (err e) = refl
then_more-bind ms qs panic = refl

after_push :
    (ps qs : List (List ℕ)) (pushed : Exec Absent (Option (List ℕ) × Reassembler))
    → ((r : Reassembler)
        → receive r (ps ++ qs) ≡ (do one ← receive r ps; then_more one.0 (receive one.1 qs)))
    → (do one ← pushed; then_more (completed one.0) (receive one.1 (ps ++ qs))) ≡ (do
      one ← (do first ← pushed; then_more (completed first.0) (receive first.1 ps))
      then_more one.0 (receive one.1 qs))
after_push ps qs (ok (out, r)) ih =
    rw (ih r) (sym (then_more-bind (completed out) qs (receive r ps)))
after_push ps qs (err e) ih = refl
after_push ps qs panic ih = refl

then_more_nil : (rest : Exec Absent (List (List ℕ) × Reassembler)) → rest ≡ then_more [] rest
then_more_nil (ok a) = refl
then_more_nil (err e) = refl
then_more_nil panic = refl

receive-append :
    (r : Reassembler) (ps qs : List (List ℕ))
    → receive r (ps ++ qs) ≡ (do one ← receive r ps; then_more one.0 (receive one.1 qs))
unfolding receive
receive-append r [] qs = then_more_nil (receive r qs)
receive-append r (p ∷ ps) qs = after_push ps qs (push r p) (λ r'. receive-append r' ps qs)

-- Messages that can be sent.
abbrev pub AreSendable : List (List ℕ) → Type 0
AreSendable [] = Unit
AreSendable (m ∷ ms) = (length m ≤ max_message) × AreSendable ms

AreShort-append : (ps qs : List (List ℕ)) → AreShort ps → AreShort qs → AreShort (ps ++ qs)
AreShort-append [] qs h k = k
AreShort-append (p ∷ ps) qs h k = (h.0, AreShort-append ps qs h.1 k)

-- Messages of at most 2048 bytes, sent one after the other: every payload has at most 250 bytes,
-- and a reassembler in any state that is given the payloads in order returns the messages, in
-- order and nothing else.
pub messages_arrive :
    (id : ℕ) (messages : List (List ℕ)) (r : Reassembler)
    → AreSendable messages
    → length r.buf ≡ max_message
    → (ps : List (List ℕ)) × (id' : ℕ) × (r' : Reassembler) × (transmit_all id messages
        ≡ ok (ps, id'))
      × AreShort ps
      × (receive r ps ≡ ok (messages, r'))
unfolding transmit_all receive
messages_arrive id [] r h whole = ([], id, r, refl, tt, refl)
messages_arrive id (m ∷ ms) r h whole =
    let (ps, sent, (short, (r', got, whole'))) = message-Delivers id m r h.0 whole in
    let (qs, id', r'', sent', short', got') = messages_arrive ((id + 1) % 256) ms r' h.1 whole' in
    (
      ps ++ qs,
      id',
      r'',
      rw (sent, sent'),
      AreShort-append ps qs short short',
      rw (receive-append r ps qs, got, got'),
    )
