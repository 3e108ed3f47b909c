-- ===== src/TokenIssuer/Jwks.antt =====
-- internal/tokenissuer/jwks.go and key.go: the signing key's ID, the document that lists it, and how a key is read. The encodings
-- and the elliptic curve are parameters.
use hairpin.Base.{
  ℕ, ◌≡◌, Bool, false, not, ◌||◌, Option, none, some, List, [], ◌∷◌, ◌++◌, Bytes, text, bytes_eq,
  Result, ok, err, external, ◌==◌, if◌then◌else◌, length, take, drop, ◌*◌, inl, inr, Option-cases,
  Result-cases, arith, ap, sym, ◌∙◌, ◌>>=◌,
}
use hairpin.TokenIssuer.{Token, Key, Issuer, new_issuer}

-- An ECDSA public key: the name of its curve, if it has one, and its SEC 1 encoding.
pub record PublicKey : Type 0 where
  pub curve : Option Bytes
  pub encoding : Option Bytes

pub record Jwk : Type 0 where
  pub kty : Bytes
  pub crv : Bytes
  pub x : Bytes
  pub y : Bytes
  pub kid : Bytes
  pub alg : Bytes
  pub use_for : Bytes

-- base64 (raw, URL), SHA-256 and the JSON of a document.
pub record Encodings : Type 0 where
  pub base64 : Bytes → Bytes
  pub sha256 : Bytes → Bytes
  pub encode_jwks : List Jwk → Option Bytes

abbrev pub coord_size : ℕ
coord_size = 32

abbrev pub is_p256_name : Option Bytes → Bool
is_p256_name none = false
is_p256_name (some name) = bytes_eq name (text "P-256")

abbrev pub split_point : Encodings → Bytes → Result (Bytes × Bytes)
split_point lib [] = err (external (text "unexpected public key encoding"))
split_point lib (tag ∷ point) =
    if not (length point == 2 * coord_size) || not (tag == 4)
    then err (external (text "unexpected public key encoding"))
    else ok (lib.base64 (take coord_size point), lib.base64 (drop coord_size point))

unfoldable pub coords : Encodings → PublicKey → Result (Bytes × Bytes)
coords lib pk =
    if not (is_p256_name pk.curve)
    then err (external (text "key is not on the P-256 curve"))
    else elim pk.encoding [
      | none ↦ err (external (text "encode public key"))
      | some raw ↦ split_point lib raw
    ]

-- The RFC 7638 canonical form.
unfoldable pub canonical : Bytes → Bytes → Bytes
canonical x y =
    text "{\"crv\":\"P-256\",\"kty\":\"EC\",\"x\":\""
    ++ (x ++ (text "\",\"y\":\"" ++ (y ++ text "\"}")))

-- KeyID.
unfoldable pub key_id : Encodings → PublicKey → Result Bytes
unfolding coords canonical
key_id lib pk = do p ← coords lib pk; ok (lib.base64 (lib.sha256 (canonical p.0 p.1)))

abbrev pub jwk_of : Bytes → Bytes × Bytes → Jwk
jwk_of kid (x, y) = record {
  kty = text "EC";
  crv = text "P-256";
  x = x;
  y = y;
  kid = kid;
  alg = text "ES256";
  use_for = text "sig";
}

abbrev pub encoded_document : Option Bytes → Result Bytes
encoded_document none = err (external (text "encode JWKS"))
encoded_document (some doc) = ok doc

unfoldable pub jwks_document : Encodings → PublicKey → Result Bytes
unfolding key_id coords
jwks_document lib pk = do
  kid ← key_id lib pk
  p ← coords lib pk
  encoded_document (lib.encode_jwks (jwk_of kid p ∷ []))

abbrev pub to_option : {A : Type 0} → Result A → Option A
to_option (err e) = none
to_option (ok a) = some a

-- A private key with its public half and its signatures, as New takes it.
unfoldable pub signing_key : Encodings → PublicKey → (Token → Option Bytes) → Key
unfolding key_id jwks_document
signing_key lib pk sign = record {
  is_p256 = is_p256_name pk.curve;
  key_id = to_option (key_id lib pk);
  jwks_document = to_option (jwks_document lib pk);
  sign = sign;
}

-- A key that a PEM block may hold, and the parsers of crypto/x509.
pub data ParsedKey : Type 0 where
  ec_key : PublicKey → ParsedKey
  other_key : ParsedKey

pub record Parsers : Type 0 where
  pub pem_decode : Bytes → Option (Bytes × Bytes)
  pub parse_sec1 : Bytes → Option PublicKey
  pub parse_pkcs8 : Bytes → Option ParsedKey

abbrev pub from_sec1 : Option PublicKey → Result PublicKey
from_sec1 none = err (external (text "parse SEC1 EC private key"))
from_sec1 (some k) = ok k

abbrev pub from_pkcs8 : Option ParsedKey → Result PublicKey
from_pkcs8 none = err (external (text "parse PKCS8 private key"))
from_pkcs8 (some other_key) = err (external (text "want *ecdsa.PrivateKey"))
from_pkcs8 (some (ec_key k)) = ok k

abbrev pub parse_block : Parsers → Option (Bytes × Bytes) → Result PublicKey
parse_block lib none = err (external (text "no PEM block found"))
parse_block lib (some (kind, body)) =
    if bytes_eq kind (text "EC PRIVATE KEY")
    then from_sec1 (lib.parse_sec1 body)
    else if bytes_eq kind (text "PRIVATE KEY")
    then from_pkcs8 (lib.parse_pkcs8 body)
    else err (external (text "unsupported PEM block type"))

abbrev pub on_p256 : PublicKey → Result PublicKey
on_p256 k = if is_p256_name k.curve then ok k else err (external (text "want P-256"))

-- ParsePrivateKeyPEM; of the key only its public half.
unfoldable pub parse_private_key_pem : Parsers → Bytes → Result PublicKey
parse_private_key_pem lib pem = do k ← parse_block lib (lib.pem_decode pem); on_p256 k

-- LoadKey; `read_file` is os.ReadFile.
unfoldable pub load_key : Parsers → (Bytes → Option Bytes) → Bytes → Result PublicKey
unfolding parse_private_key_pem
load_key lib read_file path = elim (read_file path) [
  | none ↦ err (external (text "read key"))
  | some pem ↦ parse_private_key_pem lib pem
]

-- The key that an issuer's tokens name is the one key that its document lists.
pub jwks_lists_kid :
    (lib : Encodings) (pk : PublicKey) (sign : Token → Option Bytes) (issuer audience : Bytes)
    (ttl : ℕ) (i : Issuer)
    → new_issuer (some (signing_key lib pk sign)) issuer audience ttl ≡ ok i
    → (x : Bytes) × (y : Bytes) × (coords lib pk ≡ ok (x, y))
      × (lib.encode_jwks (jwk_of i.kid (x, y) ∷ []) ≡ some i.jwks)
unfolding new_issuer signing_key key_id jwks_document
jwks_lists_kid lib pk sign issuer audience ttl i h = elim (Result-cases (coords lib pk)) [
  | inr (e, f) ↦ absurd (ground arith)
  | inl ((x, y), f) ↦
      let kid = lib.base64 (lib.sha256 (canonical x y)) in
      elim (Option-cases (lib.encode_jwks (jwk_of kid (x, y) ∷ []))) [
        | inl d ↦ absurd (ground arith)
        | inr (doc, d) ↦
            let same : i.kid ≡ kid = ground arith in
            let served : i.jwks ≡ doc = ground arith in
            (
              x,
              y,
              f,
              ap (λ k. lib.encode_jwks (jwk_of k (x, y) ∷ [])) same ∙ d ∙ ap some (sym served),
            )
      ]
]
