-- ===== src/Noise/Toy.antt =====
-- A toy cipher with which hypotheses on a cipher are tried out: the text stays as it is, and the
-- tag holds the first bytes of the associated data.
use mathlib.Core.Option.{some-injective}
use microfips.Base.{ℕ, List, ◌++◌, take, length, replicate, Bool, true, false}
use microfips.Base.{if◌then◌else◌, none, some, ◌≡◌, ap, arith, length-append, length-take, sym, ◌∙◌}
use microfips.Bytes.{eq_bytes, eq_bytes_self}
use microfips.Noise.{Cipher, IsAead}

abbrev pub tag_of : List ℕ → List ℕ
tag_of aad = take 16 (aad ++ replicate 16 0)

abbrev pub toy : Cipher
toy = record {
  encrypt = λ key nonce aad text. some (text, tag_of aad);
  decrypt = λ key nonce aad body tag. if eq_bytes tag (tag_of aad) then some body else none;
}

opened_same :
    (b : Bool) (body text : List ℕ) → (if b then some body else none) ≡ some text → body ≡ text
opened_same true body text e = some-injective _ _ e
opened_same false body text e = cc e

pub toy-IsAead : IsAead toy
toy-IsAead = record {
  encrypt_size = λ key nonce aad text body tag e.
      let f = some-injective _ _ e in
      (
        sym (ap (λ p. length p.0) f),
        sym (ap (λ p. length p.1) f)
            ∙ omega
                (arith, length-take 16 (aad ++ replicate 16 0), length-append aad (replicate 16 0)),
      );
  decrypt_size = λ key nonce aad body tag text e.
      sym (ap length (opened_same (eq_bytes tag (tag_of aad)) body text e));
  decrypt_encrypt = λ key nonce aad text body tag e.
      let f = some-injective _ _ e in
      rw (sym (ap (λ p. p.1) f), eq_bytes_self (tag_of aad), sym (ap (λ p. p.0) f));
}
