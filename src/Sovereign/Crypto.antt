-- ===== src/Sovereign/Crypto.antt =====
-- src/sovereign/crypto.ts: the check of a signed envelope. SHA-256 and Ed25519 are node's, and are
-- taken as parameters.
use gstdbot.Common.{
  ℕ, ◌+◌, ◌*◌, ltb, leb, eqb, String, ◌==◌, Bool, true, false, if◌then◌else◌, Option, none, some,
}
use Prim.Native.String.{len}
use gstdbot.Sovereign.Envelope.{Json, undefined, number, text, array, object, Fields, end, field}
use gstdbot.Sovereign.Json.{canonicalize, is_hex, js_length}

pub record Primitives : Type 0 where
  -- `createHash('sha256').update(s).digest('hex')`
  pub sha256_hex : String → String
  -- `edVerify(null, id, publicKeyFromHex(signer), sig)`, and `none` where it throws
  pub ed_verify : String → String → String → Option Bool

-- `value[key]`, for a value with fields; the first of two fields with one name.
lookup_field : Fields → String → Json
lookup_field end key = undefined
lookup_field (field k v fs) key = if k == key then v else lookup_field fs key

unfoldable pub member : Json → String → Json
unfolding lookup_field
member (object fs) key = lookup_field fs key
member _ key = undefined

abbrev pub text_of : Json → Option String
text_of v = elim v [ text s ↦ some s | _ ↦ none ]

abbrev pub number_of : Json → Option ℕ
number_of v = elim v [ number n ↦ some n | _ ↦ none ]

-- The texts that `verifyEnvelope` refuses with.
pub data Refusal : Type 0 where
  not_an_object unsupported_version bad_type bad_signer bad_signature_encoding bad_nonce : Refusal
  bad_timestamp too_far_in_the_future not_canonicalizable too_large id_mismatch : Refusal
  invalid_signature signature_check_failed : Refusal

abbrev pub max_envelope_bytes : ℕ
max_envelope_bytes = 256 * 1024

abbrev pub max_future_skew_ms : ℕ
max_future_skew_ms = 5 * 60000

-- The fields of an envelope whose forms have been checked.
pub record Header : Type 0 where
  pub kind : String
  pub signer : String
  pub sig : String
  pub nonce : String
  pub ts : ℕ

pub data Check {ℓ} (A : Type ℓ) : Type ℓ where
  passed : A → Check A
  refused : Refusal → Check A

infixl 5 ◌>>=◌ ◌>>◌
abbrev pub ◌>>=◌ {ℓ κ} : {A : Type ℓ} {B : Type κ} → Check A → (A → Check B) → Check B
passed a >>= f = f a
refused r >>= f = refused r

abbrev pub ◌>>◌ {ℓ} : {B : Type ℓ} → Check (Unit {0}) → Check B → Check B
m >> k = m >>= λ _. k

abbrev pub require : Bool → Refusal → Check (Unit {0})
require true r = passed tt
require false r = refused r

abbrev pub text_where : (String → Bool) → Json → Refusal → Check String
text_where p v r = elim (text_of v) [
  | none ↦ refused r
  | some s ↦ if p s then passed s else refused r
]

abbrev is_object : Json → Bool
is_object v = elim v [ object _ ↦ true | array _ ↦ true | _ ↦ false ]

-- `Number.isInteger(ts) && ts > 0`
abbrev positive : Json → Check ℕ
positive v = elim (number_of v) [
  | none ↦ refused bad_timestamp
  | some n ↦ if ltb 0 n then passed n else refused bad_timestamp
]

abbrev is_one : Json → Bool
is_one v = elim (number_of v) [ none ↦ false | some n ↦ eqb n 1 ]

-- The checks of form, down to the timestamp.
unfoldable pub check_form : Json → ℕ → Check Header
check_form e now = do
  require (is_object e) not_an_object
  require (is_one (member e "v")) unsupported_version
  kind ← text_where (λ s. leb (js_length s) 64) (member e "type") bad_type
  signer ← text_where (is_hex 64) (member e "signer") bad_signer
  sig ← text_where (is_hex 128) (member e "sig") bad_signature_encoding
  nonce ← text_where (is_hex 16) (member e "nonce") bad_nonce
  ts ← positive (member e "ts")
  require (leb ts (now + max_future_skew_ms)) too_far_in_the_future
  passed (record { kind = kind; signer = signer; sig = sig; nonce = nonce; ts = ts })

-- `canonicalize` of what is signed; `payload` may be missing.
unfoldable pub unsigned_body : Header → Json → Option String
unsigned_body h payload = canonicalize (
    object (
      field "v" (number 1) (
        field "type" (text h.kind) (
          field "payload" payload (
            field "signer" (text h.signer)
              (field "ts" (number h.ts) (field "nonce" (text h.nonce) end)))))))

module _ (prim : Primitives) where
  check_signature : String → Header → Check (Unit {0})
  check_signature id h = elim (prim.ed_verify id h.signer h.sig) [
    | none ↦ refused signature_check_failed
    | some b ↦ require b invalid_signature
  ]

  check_body : Json → Header → Option String → Check (Unit {0})
  unfolding check_signature
  check_body e h none = refused not_canonicalizable
  check_body e h (some body) = do
    require (leb (len body) max_envelope_bytes) too_large
    id ← text_where (λ s. prim.sha256_hex body == s) (member e "id") id_mismatch
    check_signature id h

  unfoldable pub verify_envelope : Json → ℕ → Check Header
  unfolding check_form check_body
  verify_envelope e now = do
    h ← check_form e now
    check_body e h (unsigned_body h (member e "payload"))
    passed h
