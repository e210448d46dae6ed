-- ===== src/Replay.antt =====
-- The sliding replay window of crates/fips-noise/src/replay.rs. A `usize` has `width` bits, 64 on a
-- host and 32 on the microcontrollers, and a cast to it drops the digits above.
pub mod Digits
pub mod Shift
pub mod Bitmap
pub mod Mark
pub mod Spec
pub mod Window
pub mod Accept
pub mod Narrow
mod Tests
use microfips.Base.{ℕ, zero, suc, ◌+◌, ◌-◌, ◌*◌, ◌/◌, ◌%◌, ◌^◌, bit_and, bit_or, List, [], ◌∷◌}
use microfips.Base.{length, get_or, set, replicate, ltb, leb, ◌==◌, Bool, true, false}
use microfips.Base.{if◌then◌else◌}
use microfips.Exec.{Exec, ok, Absent, index, store, ◌>>=◌}

abbrev pub window_size : ℕ
window_size = 2048

-- `[u64; REPLAY_WINDOW_SIZE / 64]`
abbrev pub words : ℕ
words = 32

-- `u64::MAX`
abbrev pub u64_max : ℕ
u64_max = 2 ^ 64 - 1

pub record ReplayWindow : Type 0 where
  pub highest : ℕ
  pub bitmap : List ℕ

unfoldable pub new : ReplayWindow
new = record { highest = 0; bitmap = replicate words 0 }

-- `for i in (word_shift..len).rev() { bitmap[i] = bitmap[i - word_shift] }`, with the rounds left.
pub move_words : ℕ → ℕ → List ℕ → List ℕ
move_words word_shift zero bitmap = bitmap
move_words word_shift (suc left) bitmap =
    move_words word_shift left (set bitmap (word_shift + left) (get_or bitmap left 0))

-- `for i in 0..word_shift { bitmap[i] = 0 }`, with the rounds left.
pub clear_words : ℕ → List ℕ → List ℕ
clear_words zero bitmap = bitmap
clear_words (suc left) bitmap = set (clear_words left bitmap) left 0

-- The loop that shifts each word and carries its high digits into the next.
pub shift_words : ℕ → ℕ → List ℕ → List ℕ
shift_words bit_shift carry [] = []
shift_words bit_shift carry (w ∷ ws) =
    bit_or (w * 2 ^ bit_shift % 2 ^ 64) carry ∷ shift_words bit_shift (w / 2 ^ (64 - bit_shift)) ws

pub move_by_words : ℕ → List ℕ → List ℕ
move_by_words word_shift bitmap =
    if ltb 0 word_shift
    then clear_words word_shift (move_words word_shift (length bitmap - word_shift) bitmap)
    else bitmap

pub move_by_bits : ℕ → List ℕ → List ℕ
move_by_bits bit_shift bitmap = if ltb 0 bit_shift then shift_words bit_shift 0 bitmap else bitmap

pub shift_bitmap : ℕ → List ℕ → List ℕ
shift_bitmap shift bitmap =
    if leb window_size shift
    then replicate words 0
    else move_by_bits (shift % 64) (move_by_words (shift / 64) bitmap)

-- `reset`
pub reset : ReplayWindow → ReplayWindow
reset w = record { highest = 0; bitmap = replicate words 0 }

-- `self.bitmap[diff / 64] & (1 << (diff % 64)) == 0`
pub is_unseen : List ℕ → ℕ → Exec Absent Bool
unfolding index
is_unseen bitmap diff = do word ← index bitmap (diff / 64); ok (bit_and word (2 ^ (diff % 64)) == 0)

-- `self.bitmap[diff / 64] |= 1 << (diff % 64)`
pub mark : List ℕ → ℕ → Exec Absent (List ℕ)
unfolding index store
mark bitmap diff = do
  word ← index bitmap (diff / 64)
  store bitmap (diff / 64) (bit_or word (2 ^ (diff % 64)))

pub advance : ReplayWindow → ℕ → ℕ → Exec Absent ReplayWindow
advance w counter shift = do
  marked ← mark (if leb window_size shift then replicate words 0 else shift_bitmap shift w.bitmap) 0
  ok (record { highest = counter; bitmap = marked })

pub fill_in : ReplayWindow → ℕ → Exec Absent ReplayWindow
fill_in w diff = do marked ← mark w.bitmap diff; ok (record w { bitmap = marked })

module _ (width : ℕ) where
  -- `n as usize`
  abbrev pub as_usize : ℕ → ℕ
  as_usize n = n % 2 ^ width

  unfoldable pub check : ReplayWindow → ℕ → Exec Absent Bool
  check w counter =
      if counter == u64_max
      then ok false
      else if ltb w.highest counter
      then ok true
      else if leb window_size (as_usize (w.highest - counter))
      then ok false
      else is_unseen w.bitmap (as_usize (w.highest - counter))

  unfoldable pub accept : ReplayWindow → ℕ → Exec Absent ReplayWindow
  accept w counter =
      if ltb w.highest counter
      then advance w counter (as_usize (counter - w.highest))
      else fill_in w (as_usize (w.highest - counter))
