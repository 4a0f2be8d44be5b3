-- ===== src/Auth.antt =====
-- Signed requests and nonces: packages/go/auth/signature.go, payload.go and nonce.go. ed25519 and
-- json.Marshal are parameters; a time is a number of nanoseconds.
pub mod Nonce
pub mod Accepted
mod Tests
use Prim.Native.Nat.{Ordering}
use Prim.Native.String.{compare}
use lab_kit.Prelude.{
  ℕ, ◌+◌, ◌-◌, ◌*◌, ◌/◌, String, Option, none, some, List, [], ◌∷◌, Bool, true, false, not, ◌==◌,
  leb, ltb, if◌then◌else◌, length, any, str_eq,
}
use lab_kit.Prelude.Int.{ℤ, pos, negsuc, ◌-ℤ◌, ltb_ℤ, leb_ℤ}
use lab_kit.Prelude.Results.{Result, ok, err, ◌>>=◌, ◌>>◌}

pub data Error : Type 0 where
  invalid_signature expired_timestamp nonce_replayed nonce_store_required signing store : Error

-- Payload
pub record Payload : Type 0 where
  pub lab_id : String
  pub timestamp : ℕ
  pub nonce : String
  pub files : List String
  pub content_hash : String

-- NewPayload
abbrev pub new_payload : String → ℕ → String → List String → Payload
new_payload lab_id timestamp nonce files = record {
  lab_id = lab_id;
  timestamp = timestamp;
  nonce = nonce;
  files = files;
  content_hash = "";
}

-- Payload.WithContentHash
abbrev pub with_content_hash : String → Payload → Payload
with_content_hash hash p = record p { content_hash = hash }

-- canonicalPayload
pub record CanonicalPayload : Type 0 where
  pub content_hash : String
  pub files : List String
  pub lab_id : String
  pub nonce : String
  pub timestamp_ms : ℕ

-- `a <= b` on texts: Go compares bytes, and the order of UTF-8 is that of code points.
abbrev pub text_le : String → String → Bool
text_le a b = elim (compare a b) [ Ordering.gt ↦ false | _ ↦ true ]

unfoldable pub insert_sorted : String → List String → List String
insert_sorted s [] = s ∷ []
insert_sorted s (t ∷ ts) = if text_le s t then s ∷ t ∷ ts else t ∷ insert_sorted s ts

-- sort.Strings
unfoldable pub sort : List String → List String
unfolding insert_sorted
sort [] = []
sort (s ∷ ss) = insert_sorted s (sort ss)

-- The view that SigningBytes marshals; time.UnixMilli of a time after 1970.
unfoldable pub canonical : ℕ → Payload → CanonicalPayload
unfolding sort
canonical epoch p = record {
  content_hash = p.content_hash;
  files = sort p.files;
  lab_id = p.lab_id;
  nonce = p.nonce;
  timestamp_ms = (p.timestamp - epoch) / 1_000_000;
}

-- math.MaxInt64, the longest time.Duration.
abbrev pub max_duration : ℕ
max_duration = 9_223_372_036_854_775_807

-- Time.Sub as the time package documents it: a difference out of range is the longest or the
-- shortest duration.
abbrev pub sub_time : ℕ → ℕ → ℤ
sub_time a b =
    if leb b a
    then pos (if leb (a - b) max_duration then a - b else max_duration)
    else negsuc (if leb (b - a - 1) max_duration then b - a - 1 else max_duration)

-- `-d` on int64: the shortest duration has no negation and stays.
abbrev pub negate : ℤ → ℤ
negate (pos n) = pos 0 -ℤ pos n
negate (negsuc n) = if n == max_duration then negsuc n else pos (n + 1)

-- freshWithin
unfoldable pub fresh_within : ℕ → ℕ → ℕ → Bool
fresh_within now ts skew =
    let diff = sub_time now ts in
    leb_ℤ (if ltb_ℤ diff (pos 0) then negate diff else diff) (pos skew)

-- defaultSkew, five minutes.
abbrev pub default_skew : ℕ
default_skew = 300_000_000_000

-- The libraries that a verifier calls: json.Marshal of the view, ed25519.Verify, and the time of
-- 1970 on the scale of times.
pub record Crypto : Type 0 where
  pub marshal : CanonicalPayload → Option (List ℕ)
  pub verify : List ℕ → List ℕ → List ℕ → Bool
  pub epoch : ℕ

-- ed25519.PublicKeySize
abbrev pub public_key_size : ℕ
public_key_size = 32

-- Verifier.VerifySignature, at a reading of the clock; a MaxSkew of 0 is the default.
unfoldable pub verify_signature :
    Crypto → ℕ → ℕ → List ℕ → Payload → List ℕ → Result Error (Unit {0})
unfolding canonical fresh_within
verify_signature c now max_skew key p sig =
    if not (length key == public_key_size)
    then err invalid_signature
    else (elim (c.marshal (canonical c.epoch p)) [
      | none ↦ err signing
      | some bytes ↦
          if not (c.verify key bytes sig)
          then err invalid_signature
          else if not
              (fresh_within now p.timestamp (if max_skew == 0 then default_skew else max_skew))
          then err expired_timestamp
          else ok tt
    ])
