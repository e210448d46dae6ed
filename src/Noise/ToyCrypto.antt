-- ===== src/Noise/ToyCrypto.antt =====
-- Toy primitives with which hypotheses on the crates are tried out: a hash that keeps the first 32
-- bytes, and a key agreement that multiplies.
use microfips.Base.{
  ℕ, ◌*◌, List, [], ◌∷◌, ◌++◌, take, drop, length, replicate, some, ◌≡◌, refl, arith, ap,
}
use microfips.Base.{length-append, length-take, length-replicate, sym, ◌∙◌, inl, get_or}
use mathlib.Core.Option.{some-injective}
use microfips.Bytes.{from_le}
use microfips.Noise.Toy.{toy, toy-IsAead, tag_of}
use microfips.Noise.Symmetric.{Crypto}
use microfips.Noise.Steps.{IsCrypto, IsPoint}

abbrev pub padded : List ℕ → List ℕ
padded xs = take 32 (xs ++ replicate 32 0)

length-padded : (xs : List ℕ) → length (padded xs) ≡ 32
length-padded xs = omega (
  arith,
  length-take 32 (xs ++ replicate 32 0),
  length-append xs (replicate 32 0),
  length-replicate {A = ℕ} 32 0,
)

abbrev pub toy_crypto : Crypto
toy_crypto = record {
  sha256 = padded;
  hkdf = λ salt ikm. padded ikm ++ padded salt;
  public_key = λ secret. some (2 ∷ padded secret);
  ecdh = λ secret pubkey. some (from_le (padded secret) * from_le (drop 1 pubkey) ∷ []);
  cipher = toy;
}

toy-IsPoint : (secret p : List ℕ) → some (2 ∷ padded secret) ≡ some p → IsPoint p
toy-IsPoint secret p e =
    let f = some-injective _ _ e in
    (sym (ap length f) ∙ omega (arith, length-padded secret), inl (sym (ap (λ t. get_or t 0 0) f)))

product_comm : (a b : ℕ) → a * b ≡ b * a
product_comm a b = omega arith

pub toy_crypto-IsCrypto : IsCrypto toy_crypto
toy_crypto-IsCrypto = record {
  aead = toy-IsAead;
  sha256_size = length-padded;
  encrypts = λ key nonce aad text short. ((text, tag_of aad), refl);
  public_key_point = toy-IsPoint;
  ecdh_agrees = λ a b p q ka kb.
      let fa = some-injective _ _ ka in
      let fb = some-injective _ _ kb in
      (
        from_le (padded a) * from_le (padded b) ∷ [],
        ap (λ t. some (from_le (padded a) * from_le (drop 1 t) ∷ [])) (sym fb),
        ap (λ t. some (from_le (padded b) * from_le (drop 1 t) ∷ [])) (sym fa)
            ∙ ap (λ t. some (t ∷ [])) (product_comm (from_le (padded b)) (from_le (padded a))),
      );
  ecdh_parity = λ a p q _ _ same. ap (λ t. some (from_le (padded a) * from_le t ∷ [])) same;
}
