-- ===== src/Noise/Zeroize.antt =====
-- What is left of a handshake after `zeroize_keys`, which runs on drop.
use microfips.Base.{ℕ, List, Option, ◌≡◌, refl}
use microfips.Noise.Symmetric.{Symmetric}
use microfips.Noise.Xx.{NoiseXxInitiator, NoiseXxResponder}
use microfips.Noise.Xk.{NoiseXkInitiator, NoiseXkResponder}
use microfips.Noise.Ik.{NoiseIkInitiator, NoiseIkResponder}
use microfips.Noise.Xx.Initiator as XxInitiator
use microfips.Noise.Xx.Responder as XxResponder
use microfips.Noise.Xk.Initiator as XkInitiator
use microfips.Noise.Xk.Responder as XkResponder
use microfips.Noise.Ik.Initiator as IkInitiator
use microfips.Noise.Ik.Responder as IkResponder

-- A key schedule whose secrets are others.
abbrev pub with_secrets : List ℕ → Option (List ℕ) → Symmetric → Symmetric
with_secrets ck k s = record s { ck = ck; k = k }

-- No secret is left by zeroize_keys: whatever the chaining key `ck`, the cipher key `k` and the private
-- keys `e` and `p` of an XX initiator, XX responder, XK initiator, XK responder, IK initiator or IK
-- responder are, it leaves the same object, with `e` perhaps absent on the two responders where it
-- is optional.
pub zeroize_keys_forgets :
    (ck : List ℕ) (k : Option (List ℕ)) (e p : List ℕ) (o : Option (List ℕ)) (xi : NoiseXxInitiator)
    (xr : NoiseXxResponder) (ki : NoiseXkInitiator) (kr : NoiseXkResponder) (ii : NoiseIkInitiator)
    (ir : NoiseIkResponder)
    → (XxInitiator.zeroize_keys
          (record xi { symmetric = with_secrets ck k xi.symmetric; e_priv = e; s_priv = p })
        ≡ XxInitiator.zeroize_keys xi)
      × (XxResponder.zeroize_keys
            (record xr { symmetric = with_secrets ck k xr.symmetric; e_priv = o; s_priv = p })
          ≡ XxResponder.zeroize_keys xr)
      × (XkInitiator.zeroize_keys
            (record ki { symmetric = with_secrets ck k ki.symmetric; e_priv = e; s_priv = p })
          ≡ XkInitiator.zeroize_keys ki)
      × (XkResponder.zeroize_keys
            (record kr { symmetric = with_secrets ck k kr.symmetric; e_priv = o })
          ≡ XkResponder.zeroize_keys kr)
      × (IkInitiator.zeroize_keys
            (record ii { symmetric = with_secrets ck k ii.symmetric; e_priv = e; s_priv = p })
          ≡ IkInitiator.zeroize_keys ii)
      × (IkResponder.zeroize_keys
            (record ir { symmetric = with_secrets ck k ir.symmetric; s_priv = p })
          ≡ IkResponder.zeroize_keys ir)
unfolding XxInitiator.zeroize_keys XxResponder.zeroize_keys XkInitiator.zeroize_keys
    XkResponder.zeroize_keys IkInitiator.zeroize_keys IkResponder.zeroize_keys
zeroize_keys_forgets ck k e p o xi xr ki kr ii ir = (refl, refl, refl, refl, refl, refl)
