-- ===== src/Noise/Tests.antt =====
-- The AEAD calls at concrete inputs.
use microfips.Base.{ℕ, List, [], ◌∷◌, ◌++◌, ◌≡◌, refl, length, replicate, drop, arith}
use microfips.Exec.{ok}
use microfips.Noise.{aead_encrypt, aead_decrypt}
use microfips.Noise.Laws.{aead_decrypt-aead_encrypt}
use microfips.Noise.Toy.{toy, toy-IsAead, tag_of}

abbrev key : List ℕ
key = replicate 32 7

abbrev greeting : List ℕ
greeting = 104 ∷ 105 ∷ []

aead_decrypt-aead_encrypt_example :
    (sealed_text : List ℕ) × (aead_encrypt toy key 5 (1 ∷ 2 ∷ []) greeting (replicate 20 9)
      ≡ ok (length sealed_text, sealed_text ++ drop (length sealed_text) (replicate 20 9)))
    × (aead_decrypt toy key 5 (1 ∷ 2 ∷ []) sealed_text (replicate 4 0)
        ≡ ok (2, greeting ++ (0 ∷ 0 ∷ [])))
aead_decrypt-aead_encrypt_example =
    aead_decrypt-aead_encrypt toy key 5 (1 ∷ 2 ∷ []) greeting greeting (tag_of (1 ∷ 2 ∷ []))
      (replicate 20 9) (replicate 4 0) toy-IsAead refl (omega arith) (omega arith)
