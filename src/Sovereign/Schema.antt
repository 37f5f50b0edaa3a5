-- ===== src/Sovereign/Schema.antt =====
-- src/sovereign/board.ts: the zod schemas of the payloads, as parsers from JSON. What zod does for
-- each combinator that the schemas use is written out: `strict` refuses other keys, an optional key
-- may be missing, and a text is measured in UTF-16 code units.
use Prim.Native.String.{◌++◌}
use gstdbot.Common.{
  ◌>>=◌, ◌>>◌, require, ℕ, ltb, leb, eqb, String, ◌==◌, Bool, true, ◌&&◌, if◌then◌else◌, Option,
  none, some, List, [], ◌∷◌, any, length,
}
use gstdbot.Sovereign.Envelope.{
  Json, undefined, array, object, Items, nil, item, Fields, end, field, Role, compute, fetch,
  verify, relay, archive, Funding, commercial, subsidized, Manifest, Announce, Lease, LeaseRole,
  fetcher, verifier, Result, DataVersion, Attest, Verdict, match, mismatch, inconclusive, Finalize,
  Decision, accepted, rejected, Payload, announce, publish, lease, result, attest, finalize,
}
use gstdbot.Sovereign.Json.{is_hex, is_amount, amount, is_package, js_length}
use gstdbot.Sovereign.Crypto.{member, text_of, number_of}

only_keys : List String → Fields → Bool
only_keys keys end = true
only_keys keys (field k v fs) = any (λ s. s == k) keys && only_keys keys fs

-- `z.object({ ... }).strict()`: an object with no other keys than these.
strict : List String → Json → Option (Unit {0})
unfolding only_keys
strict keys (object fs) = require (only_keys keys fs)
strict keys _ = none

text_if : (String → Bool) → Json → Option String
text_if p v = do s ← text_of v; require (p s); some s

number_if : (ℕ → Bool) → Json → Option ℕ
number_if p v = do n ← number_of v; require (p n); some n

literal : String → Json → Option String
unfolding text_if
literal s = text_if (λ t. t == s)

amount_of : Json → Option ℕ
unfolding text_if
amount_of v = do s ← text_if is_amount v; some (amount s)

short : ℕ → Json → Option String
unfolding text_if
short n = text_if (λ s. leb (js_length s) n)

hash_of : Json → Option String
unfolding text_if
hash_of = text_if (is_hex 64)

between : ℕ → ℕ → Json → Option ℕ
unfolding number_if
between lo hi = number_if (λ n. leb lo n && leb n hi)

positive : Json → Option ℕ
unfolding number_if
positive = number_if (λ n. ltb 0 n)

-- `.optional()`
optional {ℓ} : {A : Type ℓ} → (Json → Option A) → Json → Option (Option A)
optional p undefined = some none
optional p v = p v >>= λ a. some (some a)

items_of {ℓ} : {A : Type ℓ} → (Json → Option A) → Items → Option (List A)
items_of p nil = some []
items_of p (item v vs) = do a ← p v; rest ← items_of p vs; some (a ∷ rest)

-- `z.array(p).max(n)`
array_of {ℓ} : {A : Type ℓ} → (Json → Option A) → ℕ → Json → Option (List A)
unfolding items_of
array_of p n (array vs) = do l ← items_of p vs; require (leb (length l) n); some l
array_of p n _ = none

role_named : String → Option Role
role_named s =
    if s == "compute"
    then some compute
    else if s == "data"
    then some fetch
    else if s == "verify"
    then some verify
    else if s == "relay"
    then some relay
    else if s == "archive"
    then some archive
    else none

role_of : Json → Option Role
unfolding role_named
role_of v = text_of v >>= role_named

funding_named : String → Option Funding
funding_named s =
    if s == "commercial"
    then some commercial
    else if s == "subsidized"
    then some subsidized
    else none

funding_of : Json → Option Funding
unfolding funding_named
funding_of v = text_of v >>= funding_named

lease_role_named : String → Option LeaseRole
lease_role_named s =
    if s == "data" then some fetcher else if s == "verify" then some verifier else none

lease_role_of : Json → Option LeaseRole
unfolding lease_role_named
lease_role_of v = text_of v >>= lease_role_named

verdict_named : String → Option Verdict
verdict_named s =
    if s == "match"
    then some match
    else if s == "mismatch"
    then some mismatch
    else if s == "inconclusive"
    then some inconclusive
    else none

verdict_of : Json → Option Verdict
unfolding verdict_named
verdict_of v = text_of v >>= verdict_named

decision_named : String → Option Decision
decision_named s =
    if s == "accepted" then some accepted else if s == "rejected" then some rejected else none

decision_of : Json → Option Decision
unfolding decision_named
decision_of v = text_of v >>= decision_named

manifest_keys : List String
manifest_keys =
    "kind" ∷ "adapter" ∷ "params" ∷ "entity" ∷ "funding" ∷ "budgetNano" ∷ "minVerifiers" ∷ "leaseMs"
    ∷ "deadline" ∷ "maxAttempts" ∷ "acceptance" ∷ "backups" ∷ []

unfoldable pub parse_manifest : Json → Option Manifest
unfolding strict manifest_keys text_if literal short funding_of amount_of between positive hash_of
    array_of optional
parse_manifest v = do
  strict manifest_keys v
  _ ← literal "data.fetch" (member v "kind")
  adapter ← literal "npm-registry" (member v "adapter")
  strict ("package" ∷ []) (member v "params")
  name ← text_if is_package (member (member v "params") "package")
  entity ← short 140 (member v "entity")
  funding ← funding_of (member v "funding")
  budget ← amount_of (member v "budgetNano")
  min_verifiers ← between 1 5 (member v "minVerifiers")
  lease_ms ← between 500 3600000 (member v "leaseMs")
  deadline ← positive (member v "deadline")
  max_attempts ← between 1 5 (member v "maxAttempts")
  _ ← literal "verifier-hash-match" (member v "acceptance")
  backups ← optional (array_of hash_of 3) (member v "backups")
  require (entity == "npm:" ++ name)
  some (record {
    adapter = adapter;
    package_name = name;
    entity = entity;
    funding = funding;
    budget_nano = budget;
    min_verifiers = min_verifiers;
    lease_ms = lease_ms;
    deadline = deadline;
    max_attempts = max_attempts;
    backups = backups;
  })

unfoldable pub parse_announce : Json → Option Announce
unfolding strict role_of short amount_of number_if array_of optional
parse_announce v = do
  strict ("roles" ∷ "adapters" ∷ "priceNano" ∷ "httpUrl" ∷ "protocol" ∷ []) v
  roles ← array_of role_of 5 (member v "roles")
  adapters ← array_of (short 32) 8 (member v "adapters")
  price ← amount_of (member v "priceNano")
  url ← optional (short 256) (member v "httpUrl")
  _ ← number_if (λ n. eqb n 1) (member v "protocol")
  some (record { roles = roles; adapters = adapters; price_nano = price; http_url = url })

unfoldable pub parse_lease : Json → Option Lease
unfolding strict hash_of lease_role_of between positive
parse_lease v = do
  strict ("taskId" ∷ "role" ∷ "worker" ∷ "epoch" ∷ "expiresAt" ∷ []) v
  task ← hash_of (member v "taskId")
  role ← lease_role_of (member v "role")
  worker ← hash_of (member v "worker")
  epoch ← between 1 10 (member v "epoch")
  expires ← positive (member v "expiresAt")
  some
      (record { task_id = task; role = role; worker = worker; epoch = epoch; expires_at = expires })

unfoldable pub parse_version : Json → Option DataVersion
unfolding strict short positive hash_of
parse_version v = do
  strict ("entity" ∷ "adapter" ∷ "source" ∷ "fetchedAt" ∷ "contentHash" ∷ "content" ∷ []) v
  entity ← short 140 (member v "entity")
  adapter ← short 32 (member v "adapter")
  source ← short 300 (member v "source")
  fetched ← positive (member v "fetchedAt")
  hash ← hash_of (member v "contentHash")
  some (record {
    entity = entity;
    adapter = adapter;
    source = source;
    fetched_at = fetched;
    content_hash = hash;
    content = member v "content";
  })

unfoldable pub parse_result : Json → Option Result
unfolding strict hash_of parse_version
parse_result v = do
  strict ("taskId" ∷ "leaseId" ∷ "version" ∷ []) v
  task ← hash_of (member v "taskId")
  lease_id ← hash_of (member v "leaseId")
  version ← parse_version (member v "version")
  some (record { task_id = task; lease_id = lease_id; version = version })

unfoldable pub parse_attest : Json → Option Attest
unfolding strict hash_of verdict_of optional short
parse_attest v = do
  strict ("taskId" ∷ "resultId" ∷ "verdict" ∷ "observedHash" ∷ "reason" ∷ []) v
  task ← hash_of (member v "taskId")
  result_id ← hash_of (member v "resultId")
  verdict ← verdict_of (member v "verdict")
  observed ← optional hash_of (member v "observedHash")
  reason ← short 200 (member v "reason")
  some (record {
    task_id = task;
    result_id = result_id;
    verdict = verdict;
    observed_hash = observed;
    reason = reason;
  })

unfoldable pub parse_finalize : Json → Option Finalize
unfolding strict hash_of decision_of short optional
parse_finalize v = do
  strict ("taskId" ∷ "decision" ∷ "reason" ∷ "resultId" ∷ []) v
  task ← hash_of (member v "taskId")
  decision ← decision_of (member v "decision")
  reason ← short 200 (member v "reason")
  result_id ← optional hash_of (member v "resultId")
  some (record { task_id = task; decision = decision; reason = reason; result_id = result_id })

-- What `SCHEMAS[type]` is: a schema, a member that every JavaScript object inherits and that has no
-- `safeParse`, or nothing.
pub data SchemaLookup : Type 0 where
  schema : (Json → Option Payload) → SchemaLookup
  inherited unknown : SchemaLookup

abbrev pub inherited_names : List String
inherited_names =
    "constructor" ∷ "toString" ∷ "valueOf" ∷ "toLocaleString" ∷ "hasOwnProperty" ∷ "isPrototypeOf"
    ∷ "propertyIsEnumerable" ∷ "__proto__" ∷ "__defineGetter__" ∷ "__defineSetter__"
    ∷ "__lookupGetter__" ∷ "__lookupSetter__" ∷ []

abbrev as_payload {ℓ} : {A : Type ℓ} → (A → Payload) → (Json → Option A) → SchemaLookup
as_payload make parse = schema (λ v. parse v >>= λ a. some (make a))

unfoldable pub schema_of : String → SchemaLookup
schema_of kind =
    if kind == "node.announce"
    then as_payload announce parse_announce
    else if kind == "task.publish"
    then as_payload publish parse_manifest
    else if kind == "task.lease"
    then as_payload lease parse_lease
    else if kind == "task.result"
    then as_payload result parse_result
    else if kind == "task.attest"
    then as_payload attest parse_attest
    else if kind == "task.finalize"
    then as_payload finalize parse_finalize
    else if any (λ s. s == kind) inherited_names
    then inherited
    else unknown
