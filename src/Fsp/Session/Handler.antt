-- ===== src/Fsp/Session/Handler.antt =====
-- `handle_fsp_datagram` of crates/microfips-core/src/fsp.rs: the dispatch of a session datagram.
use microfips.Base.{
  ℕ, ◌+◌, List, [], ◌∷◌, length, ltb, ◌==◌, ◌!=◌, if◌then◌else◌, bit_and, not, replicate, Option,
  none, some,
}
use microfips.Exec.{Exec, ok, err, panic, slice, slice_from, copy_into, map_err, ◌>>=◌}
use microfips.Noise.{aead_decrypt}
use microfips.Noise.Symmetric.{Crypto}
use microfips.Fsp.{phase_session_setup, phase_session_msg3}
use microfips.Fsp.Datagram.{fsp_strip_inner_header}
use microfips.Fsp.Encrypted.{
  session_datagram_body_size, phase_established, flag_unencrypted, build_session_datagram_body,
  parse_fsp_encrypted_header,
}
use microfips.Fsp.Session.{FspSessionError, invalid_state, ResponderCalls}
use microfips.Fsp.Session.Responder.{
  FspSession, handle_setup, handle_msg3, reset, session_keys, is_established,
}

-- `none` is named `no_reply` here.
pub data FspHandlerResult : Type 0 where
  no_reply : FspHandlerResult
  send_datagram : ℕ → FspHandlerResult

pub data FspHandlerError : Type 0 where
  setup msg3 : FspSessionError → FspHandlerError
  decrypt_failed inner_header_too_short buffer_too_small unknown_phase : FspHandlerError

-- What a datagram leads to: the result with the reply buffer, and the session.
abbrev pub Handled : Type 0 → Type 0
Handled R = Exec FspHandlerError (FspHandlerResult × List ℕ) × FspSession R

abbrev pub first_of : List ℕ → Option ℕ
first_of [] = none
first_of (b ∷ _) = some b

-- The reply body, the session message and its first byte, which is absent in an empty message.
unfoldable pub cut_datagram : List ℕ → Exec FspHandlerError (List ℕ × List ℕ × Option ℕ)
cut_datagram payload = do
  src_addr ← slice payload 3 19
  dst_addr ← slice payload 19 35
  buf ← slice_from payload session_datagram_body_size
  ok (build_session_datagram_body dst_addr src_addr, buf, first_of buf)

module _ {R : Type 0} (c : Crypto) (calls : ResponderCalls R)
    (secret ephemeral epoch : List ℕ) where
  -- The acknowledgement behind the datagram body, in the reply buffer.
  unfoldable pub reply :
      (body resp : List ℕ) → ℕ × List ℕ → Exec FspHandlerError (FspHandlerResult × List ℕ)
  reply body resp (ack_len, tmp) =
      let total = session_datagram_body_size + ack_len in
      if ltb (length resp) total then err buffer_too_small else (do
        with_body ← copy_into resp 0 session_datagram_body_size body
        ack ← slice tmp 0 ack_len
        whole ← copy_into with_body session_datagram_body_size total ack
        ok (send_datagram total, whole))

  abbrev pub replied :
      (body resp : List ℕ) → Exec FspSessionError (ℕ × List ℕ) × FspSession R → Handled R
  replied body resp (ok ack, s) = (reply body resp ack, s)
  replied body resp (err e, s) = (err (setup e), s)
  replied body resp (panic, s) = (panic, s)

  abbrev pub set_up :
      (buf : List ℕ) → FspSession R → Exec FspSessionError (ℕ × List ℕ) × FspSession R
  set_up buf = handle_setup c calls secret ephemeral epoch buf (replicate 512 0)

  -- A session in another state is reset, and the setup is handled again.
  abbrev pub retried :
      (buf body resp : List ℕ) → Exec FspSessionError (ℕ × List ℕ) × FspSession R → Handled R
  retried buf body resp (ok ack, s) = replied body resp (ok ack, s)
  retried buf body resp (err invalid_state, s) = replied body resp (set_up buf (reset s))
  retried buf body resp (err e, s) = replied body resp (err e, s)
  retried buf body resp (panic, s) = (panic, s)

  abbrev pub no_answer : List ℕ → Exec FspSessionError (Unit {0}) × FspSession R → Handled R
  no_answer resp (ok _, s) = (ok (no_reply, resp), s)
  no_answer resp (err e, s) = (err (msg3 e), s)
  no_answer resp (panic, s) = (panic, s)

  -- The parts of an encrypted message; `err absent` is no answer.
  abbrev pub opened :
      {E : Type 0}
      → List ℕ
      → List ℕ
      → Exec E (ℕ × ℕ × List ℕ × List ℕ)
      → Exec FspHandlerError (FspHandlerResult × List ℕ)
  opened k_recv resp (err _) = ok (no_reply, resp)
  opened k_recv resp panic = panic
  opened k_recv resp (ok (flags, counter, header, encrypted)) =
      if bit_and flags flag_unencrypted != 0 then ok (no_reply, resp) else (do
        (dl, dec) ←
            map_err (λ _. decrypt_failed)
              (aead_decrypt c.cipher k_recv counter header encrypted (replicate 512 0))
        text ← slice dec 0 dl
        inner ← map_err (λ _. inner_header_too_short) (fsp_strip_inner_header text)
        ok (no_reply, resp))

  abbrev pub under_keys :
      List ℕ → List ℕ → Option (List ℕ × List ℕ) → Exec FspHandlerError (FspHandlerResult × List ℕ)
  under_keys buf resp none = ok (no_reply, resp)
  under_keys buf resp (some (k_recv, k_send)) = opened k_recv resp (parse_fsp_encrypted_header buf)

  abbrev pub encrypted_message : (buf resp : List ℕ) → FspSession R → Handled R
  encrypted_message buf resp s =
      if not (is_established s.state)
      then (ok (no_reply, resp), s)
      else (under_keys buf resp (session_keys s), s)

  -- By the phase of the session message.
  unfoldable pub dispatch : (phase : ℕ) → (buf body resp : List ℕ) → FspSession R → Handled R
  dispatch phase buf body resp s =
      if phase == phase_session_setup
      then retried buf body resp (set_up buf s)
      else if phase == phase_session_msg3
      then no_answer resp (handle_msg3 c calls buf s)
      else if phase == phase_established
      then encrypted_message buf resp s
      else (err unknown_phase, s)

  abbrev pub dispatched :
      Exec FspHandlerError (List ℕ × List ℕ × Option ℕ) → List ℕ → FspSession R → Handled R
  dispatched (ok (body, buf, none)) resp s = (ok (no_reply, resp), s)
  dispatched (ok (body, buf, some first)) resp s = dispatch (bit_and first 0x0f) buf body resp s
  dispatched (err e) resp s = (err e, s)
  dispatched panic resp s = (panic, s)

  unfoldable pub handle_fsp_datagram : (payload resp : List ℕ) → FspSession R → Handled R
  handle_fsp_datagram payload resp s =
      if ltb (length payload) session_datagram_body_size
      then (ok (no_reply, resp), s)
      else dispatched (cut_datagram payload) resp s
