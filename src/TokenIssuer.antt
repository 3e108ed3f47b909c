-- ===== src/TokenIssuer.antt =====
-- internal/tokenissuer/issuer.go: the claims of a sandbox identity token. Keys, signatures and randomness are parameters.
pub mod Claims
pub mod Jwks
use hairpin.Base.{
  ℕ, ◌+◌, Bool, true, false, not, ◌||◌, Option, none, some, List, Bytes, text, is_empty, Result, ok,
  err, Error, external, ◌==◌, if◌then◌else◌,
}
use hairpin.Job.{Time}
use hairpin.Controlplane.Answer.{unix}

-- The claims, and the header's `kid` and `typ`.
pub record Token : Type 0 where
  pub iss : Bytes
  pub aud : Bytes
  pub sub : Bytes
  pub iat : ℕ
  pub exp : ℕ
  pub jti : Bytes
  pub repos : Option (List Bytes)
  pub kid : Bytes
  pub typ : Bytes

-- The key's curve, its ID and its JWKS document, and the signature of a token under it.
pub record Key : Type 0 where
  pub is_p256 : Bool
  pub key_id : Option Bytes
  pub jwks_document : Option Bytes
  pub sign : Token → Option Bytes

pub record Issuer : Type 0 where
  pub priv : Key
  pub kid : Bytes
  pub jwks : Bytes
  pub issuer : Bytes
  pub audience : Bytes
  pub ttl : ℕ

unfoldable pub token_type : Bytes
token_type = text "at+jwt"

abbrev pub with_key : Key → Bytes → Bytes → ℕ → Option Bytes → Option Bytes → Result Issuer
with_key priv issuer audience ttl none doc = err (external (text "key id"))
with_key priv issuer audience ttl (some kid) none = err (external (text "jwks"))
with_key priv issuer audience ttl (some kid) (some doc) =
    ok (record {
      priv = priv;
      kid = kid;
      jwks = doc;
      issuer = issuer;
      audience = audience;
      ttl = ttl;
    })

-- New; no key is given as none, and a ttl that is not positive as 0.
unfoldable pub new_issuer : Option Key → Bytes → Bytes → ℕ → Result Issuer
new_issuer none issuer audience ttl = err (external (text "signing key must be a P-256 ECDSA key"))
new_issuer (some priv) issuer audience ttl =
    if not priv.is_p256
    then err (external (text "signing key must be a P-256 ECDSA key"))
    else if is_empty issuer
    then err (external (text "issuer is required"))
    else if is_empty audience
    then err (external (text "audience is required"))
    else if ttl == 0
    then err (external (text "ttl must be positive"))
    else with_key priv issuer audience ttl priv.key_id priv.jwks_document

-- The claims of a token that is minted at the time `now` under the random `jti`.
unfoldable pub claims : Issuer → Time → Bytes → Bytes → List Bytes → Token
unfolding token_type
claims i now jti sub repo_scope = record {
  iss = i.issuer;
  aud = i.audience;
  sub = sub;
  iat = unix now;
  exp = unix (now + i.ttl);
  jti = jti;
  repos = some repo_scope;
  kid = i.kid;
  typ = token_type;
}

-- Mint: `jti` is what crypto/rand gives, if it gives something.
unfoldable pub mint : Issuer → Time → Option Bytes → Bytes → List Bytes → Option (Bytes × Time)
unfolding claims
mint i now none sub repo_scope = none
mint i now (some jti) sub repo_scope = elim (i.priv.sign (claims i now jti sub repo_scope)) [
  | none ↦ none
  | some signed ↦ some (signed, now + i.ttl)
]
