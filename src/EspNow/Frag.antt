-- ===== src/EspNow/Frag.antt =====
-- `Fragmenter`, `FragmentIter`, `Reassembler` and `SrcReassembler` of
-- crates/microfips-esp-common/src/espnow_frag.rs. A MAC is the list of its six bytes, and the bytes
-- of a fragment are its header and its chunk, as the senders join them.
use microfips.Base.{
  ℕ, zero, suc, ◌+◌, ◌%◌, min, List, [], ◌∷◌, ◌++◌, Option, none, some, Bool, true, false, ◌||◌,
  ltb, ◌==◌, ◌!=◌, not, if◌then◌else◌, length, replicate, bit_and, bit_or,
}
use microfips.Bytes.{eq_bytes}
use microfips.Exec.{Exec, ok, panic, Absent, ◌>>=◌, index, slice, slice_from, copy_into}

abbrev pub max_payload : ℕ
max_payload = 250

abbrev pub header_len : ℕ
header_len = 2

abbrev pub max_chunk : ℕ
max_chunk = 248

-- `MAX_FRAME_SIZE` of the node.
abbrev pub max_message : ℕ
max_message = 2048

abbrev pub last_flag : ℕ
last_flag = 0x80

abbrev pub idx_mask : ℕ
idx_mask = 0x7f

pub record FragmentIter : Type 0 where
  pub msg_id : ℕ
  pub rest : List ℕ
  pub idx : ℕ
  pub done : Bool

-- The state of `Fragmenter` is its `next_msg_id`.
unfoldable pub fragments : (next_msg_id : ℕ) (message : List ℕ) → Option FragmentIter × ℕ
fragments next_msg_id message = if ltb max_message (length message) then (none, next_msg_id) else (
  some (record { msg_id = next_msg_id; rest = message; idx = 0; done = false }),
  (next_msg_id + 1) % 256,
)

-- `self.idx += 1` of a `u8`, which panics past 255.
abbrev pub count_up : ℕ → Exec Absent ℕ
count_up idx = if ltb idx 255 then ok (idx + 1) else panic

abbrev pub fragment_header : (msg_id idx : ℕ) (last : Bool) → List ℕ
fragment_header msg_id idx last =
    msg_id ∷ bit_or (bit_and idx idx_mask) (if last then last_flag else 0) ∷ []

abbrev pub no_bytes : List ℕ → Bool
no_bytes [] = true
no_bytes (b ∷ bs) = false

-- `FragmentIter::next`: the header and the chunk.
unfoldable pub next_fragment : FragmentIter → Exec Absent (Option (List ℕ × List ℕ) × FragmentIter)
next_fragment it =
    if it.done
    then ok (none, it)
    else let taken = min (length it.rest) max_chunk in
      do
        chunk ← slice it.rest 0 taken
        rest ← slice_from it.rest taken
        idx ← count_up it.idx
        ok (
          some (fragment_header it.msg_id it.idx (no_bytes rest), chunk),
          record it { rest = rest; idx = idx; done = no_bytes rest },
        )

-- The loop of the senders over the fragments, with fuel: the payload of each fragment is its header
-- and its chunk. The loop still runs when the fuel is used up in `panic`.
unfoldable pub payloads : (fuel : ℕ) → FragmentIter → Exec Absent (List (List ℕ))
payloads zero it = panic
payloads (suc fuel) it = do
  one ← next_fragment it
  elim one.0 [
    | none ↦ ok []
    | some fragment ↦ do more ← payloads fuel one.1; ok ((fragment.0 ++ fragment.1) ∷ more)
  ]

pub record Reassembler : Type 0 where
  pub buf : List ℕ
  pub len : ℕ
  pub msg_id : ℕ
  pub next_idx : ℕ
  pub active : Bool

unfoldable pub new : Reassembler
new = record { buf = replicate max_message 0; len = 0; msg_id = 0; next_idx = 0; active = false }

abbrev pub reset : Reassembler → Reassembler
reset r = record r { active = false }

abbrev pub is_last : ℕ → Bool
is_last flags = bit_and flags last_flag != 0

abbrev pub idx_of : ℕ → ℕ
idx_of flags = bit_and flags idx_mask

-- The state in which a fragment finds its message: fragment 0 begins one, another must be the next
-- of the message in progress.
unfoldable pub admit : Reassembler → (id idx : ℕ) → Option Reassembler
admit r id idx =
    if idx == 0
    then some (record r { msg_id = id; len = 0; next_idx = 0; active = true })
    else if not r.active || id != r.msg_id || idx != r.next_idx
    then none
    else some r

-- What a push returns once the chunk is in the buffer: the message, after its last fragment.
unfoldable pub finish_message :
    Reassembler → (last : Bool) → Exec Absent (Option (List ℕ) × Reassembler)
finish_message r true = do message ← slice r.buf 0 r.len; ok (some message, reset r)
finish_message r false = ok (none, r)

unfoldable pub append_chunk :
    Reassembler
    → (idx : ℕ) (last : Bool) (chunk : List ℕ) → Exec Absent (Option (List ℕ) × Reassembler)
append_chunk r idx last chunk =
    if ltb max_message (r.len + length chunk) then ok (none, reset r) else do
      buf ← copy_into r.buf r.len (r.len + length chunk) chunk
      finish_message (record r { buf = buf; len = r.len + length chunk; next_idx = idx + 1 }) last

-- `Reassembler::push`
unfoldable pub push : Reassembler → List ℕ → Exec Absent (Option (List ℕ) × Reassembler)
push r payload =
    if ltb (length payload) header_len || ltb max_payload (length payload)
    then ok (none, reset r)
    else do
      msg_id ← index payload 0
      flags ← index payload 1
      chunk ← slice_from payload header_len
      elim (admit r msg_id (idx_of flags)) [
        | none ↦ ok (none, reset r)
        | some r' ↦ append_chunk r' (idx_of flags) (is_last flags) chunk
      ]

pub record SrcReassembler : Type 0 where
  pub reassembler : Reassembler
  pub src : Option (List ℕ)

unfoldable pub src_new : SrcReassembler
unfolding new
src_new = record { reassembler = new; src = none }

abbrev pub same_src : Option (List ℕ) → List ℕ → Bool
same_src none src = false
same_src (some known) src = eq_bytes known src

-- The state after a change of the source.
abbrev pub note_src : SrcReassembler → List ℕ → SrcReassembler
note_src s src =
    if same_src s.src src then s else record { reassembler = reset s.reassembler; src = some src }

-- `SrcReassembler::push`
unfoldable pub push_from :
    SrcReassembler → List ℕ → List ℕ → Exec Absent (Option (List ℕ) × SrcReassembler)
push_from s src payload = do
  pushed ← push (note_src s src).reassembler payload
  ok (pushed.0, record (note_src s src) { reassembler = pushed.1 })

-- The messages that a reassembler returns for payloads pushed one after the other.
abbrev pub completed : Option (List ℕ) → List (List ℕ)
completed none = []
completed (some message) = message ∷ []

unfoldable pub receive : Reassembler → List (List ℕ) → Exec Absent (List (List ℕ) × Reassembler)
receive r [] = ok ([], r)
receive r (payload ∷ rest) = do
  one ← push r payload
  more ← receive one.1 rest
  ok (completed one.0 ++ more.0, more.1)

-- The payloads that a sender makes of a message, and the next message id. A message that is too
-- long is dropped. Nine fragments hold the longest message, and one more call ends the loop.
abbrev pub send_begun : Option FragmentIter × ℕ → Exec Absent (List (List ℕ) × ℕ)
send_begun (none, next) = ok ([], next)
send_begun (some it, next) = do sent ← payloads 10 it; ok (sent, next)

unfoldable pub transmit : (next_msg_id : ℕ) (message : List ℕ) → Exec Absent (List (List ℕ) × ℕ)
transmit next_msg_id message = send_begun (fragments next_msg_id message)

unfoldable pub transmit_all :
    (next_msg_id : ℕ) (messages : List (List ℕ)) → Exec Absent (List (List ℕ) × ℕ)
transmit_all next_msg_id [] = ok ([], next_msg_id)
transmit_all next_msg_id (message ∷ rest) = do
  one ← transmit next_msg_id message
  more ← transmit_all one.1 rest
  ok (one.0 ++ more.0, more.1)
