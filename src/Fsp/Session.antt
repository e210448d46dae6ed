-- ===== src/Fsp/Session.antt =====
-- The sessions of crates/microfips-core/src/fsp.rs: states and errors, and what a session asks of the
-- handshake that the build chose.
pub mod Xk
pub mod Xx
pub mod Responder
pub mod Initiator
pub mod Handler
pub mod Invariant
pub mod Establish
pub mod Established
pub mod XkConversation
pub mod Block
pub mod XxConversation
mod Tests
pub mod Teardown
use microfips.Base.{ℕ, List, Bool, Option, none, some, false, true}
use microfips.Exec.{Exec}
use microfips.Noise.{NoiseError}
use microfips.Noise as Noise
use microfips.Noise.Method.{Method}
use microfips.Fsp.{FspError}
use microfips.Fsp as Fsp

pub data FspSessionState : Type 0 where
  idle awaiting_msg3 established : FspSessionState

pub data FspSessionError : Type 0 where
  invalid_state invalid_message crypto_error buffer_too_small : FspSessionError

unfoldable pub from_fsp_error : FspError → FspSessionError
from_fsp_error Fsp.buffer_too_small = buffer_too_small
from_fsp_error Fsp.invalid_frame = invalid_message
from_fsp_error Fsp.invalid_coords = invalid_message

unfoldable pub from_noise_error : NoiseError → FspSessionError
from_noise_error Noise.buffer_too_small = buffer_too_small
from_noise_error Noise.invalid_message = invalid_message
from_noise_error Noise.invalid_state = invalid_message
from_noise_error _ = crypto_error

-- The two builds: Noise XK, and Noise XX with the feature noise-xx. A session is written over the
-- struct of the handshake and what it calls of it.
pub record ResponderCalls (R : Type 0) : Type 0 where
  -- The responder for a first message, under the static secret.
  pub start : List ℕ → List ℕ → Exec FspSessionError R
  -- The bytes of the buffer for the second message.
  pub msg2_buf : ℕ
  pub write_message2 : List ℕ → List ℕ → List ℕ → Method NoiseError R (ℕ × List ℕ)
  -- The destination of the acknowledgement, from the source of the setup and the first message.
  pub ack_dst : List ℕ → List ℕ → Exec FspSessionError (List ℕ)
  -- What is appended to a second message of this length in its buffer.
  pub append_negotiation : ℕ → List ℕ → Method FspSessionError R (ℕ × List ℕ)
  -- The test of the length of a third message.
  pub accepts_msg3 : List ℕ → Bool
  pub read_message3 : List ℕ → Method FspSessionError R (List ℕ × List ℕ)
  pub finalize : R → List ℕ × List ℕ

pub data FspInitiatorState : Type 0 where
  initiator_idle awaiting_ack awaiting_established initiator_established : FspInitiatorState

pub data FspInitiatorError : Type 0 where
  wrong_state wrong_message peer_key_mismatch decrypt_failed small_buffer : FspInitiatorError
  noise_error : NoiseError → FspInitiatorError

unfoldable pub initiator_from_fsp_error : FspError → FspInitiatorError
initiator_from_fsp_error Fsp.buffer_too_small = small_buffer
initiator_from_fsp_error Fsp.invalid_frame = wrong_message
initiator_from_fsp_error Fsp.invalid_coords = wrong_message

pub record InitiatorCalls (I : Type 0) : Type 0 where
  -- The initiator under its ephemeral and its static secret, for a static key of the responder.
  pub start : List ℕ → List ℕ → List ℕ → Exec NoiseError (I × List ℕ)
  pub write_message1 : List ℕ → Method NoiseError I (ℕ × List ℕ)
  -- Under the pinned static key of the responder.
  pub read_ack : List ℕ → List ℕ → Method FspInitiatorError I (Unit {0})
  -- The bytes of the buffer for the third message.
  pub msg3_buf : ℕ
  pub write_message3 : List ℕ → List ℕ → List ℕ → Method NoiseError I (ℕ × List ℕ)
  -- What is appended to a third message of this length in its buffer.
  pub append_negotiation : ℕ → List ℕ → Method FspInitiatorError I (ℕ × List ℕ)
  pub finalize : I → List ℕ × List ℕ
