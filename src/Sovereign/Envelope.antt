-- ===== src/Sovereign/Envelope.antt =====
-- src/sovereign/crypto.ts (the envelope) and src/sovereign/board.ts (the payloads that its schemas
-- admit). An envelope's `type` is the constructor of its payload, and its `v` is always 1.
-- Amounts written in digits (`budgetNano`, `priceNano`) are numbers.
use gstdbot.Common.{ℕ, String, Bool, List, Option, none, some}

-- What `JSON.parse` can give. `number` is an integral number that is not negative; `other_number`
-- carries the text of any other finite one.
mutual
  pub data Json : Type 0 where
    undefined : Json
    null : Json
    boolean : Bool → Json
    number : ℕ → Json
    other_number : String → Json
    not_finite : Json
    text : String → Json
    array : Items → Json
    object : Fields → Json

  pub data Items : Type 0 where
    nil : Items
    item : Json → Items → Items

  pub data Fields : Type 0 where
    end : Fields
    field : String → Json → Fields → Fields

pub data Role : Type 0 where
  compute fetch verify relay archive : Role

pub data Funding : Type 0 where
  commercial subsidized : Funding

pub record Manifest : Type 0 where
  pub adapter : String
  pub package_name : String
  pub entity : String
  pub funding : Funding
  pub budget_nano : ℕ
  pub min_verifiers : ℕ
  pub lease_ms : ℕ
  pub deadline : ℕ
  pub max_attempts : ℕ
  pub backups : Option (List String)

pub record Announce : Type 0 where
  pub roles : List Role
  pub adapters : List String
  pub price_nano : ℕ
  pub http_url : Option String

-- The roles that a lease can give: 'data' and 'verify'.
pub data LeaseRole : Type 0 where
  fetcher verifier : LeaseRole

pub record Lease : Type 0 where
  pub task_id : String
  pub role : LeaseRole
  pub worker : String
  pub epoch : ℕ
  pub expires_at : ℕ

pub record DataVersion : Type 0 where
  pub entity : String
  pub adapter : String
  pub source : String
  pub fetched_at : ℕ
  pub content_hash : String
  pub content : Json

pub record Result : Type 0 where
  pub task_id : String
  pub lease_id : String
  pub version : DataVersion

pub data Verdict : Type 0 where
  match mismatch inconclusive : Verdict

pub record Attest : Type 0 where
  pub task_id : String
  pub result_id : String
  pub verdict : Verdict
  pub observed_hash : Option String
  pub reason : String

pub data Decision : Type 0 where
  accepted rejected : Decision

pub record Finalize : Type 0 where
  pub task_id : String
  pub decision : Decision
  pub reason : String
  pub result_id : Option String

pub data Payload : Type 0 where
  announce : Announce → Payload
  publish : Manifest → Payload
  lease : Lease → Payload
  result : Result → Payload
  attest : Attest → Payload
  finalize : Finalize → Payload

pub record Envelope (P : Type 0) : Type 0 where
  pub payload : P
  pub signer : String
  pub ts : ℕ
  pub nonce : String
  pub id : String
  pub sig : String

-- `e as Envelope<P>` once the type has been tested.
abbrev pub retype : {P Q : Type 0} → Envelope P → Q → Envelope Q
retype e q = record {
  payload = q;
  signer = e.signer;
  ts = e.ts;
  nonce = e.nonce;
  id = e.id;
  sig = e.sig;
}

unfoldable pub as_announce : Envelope Payload → Option (Envelope Announce)
as_announce e = elim e.payload [ announce p ↦ some (retype e p) | _ ↦ none ]

unfoldable pub as_manifest : Envelope Payload → Option (Envelope Manifest)
as_manifest e = elim e.payload [ publish p ↦ some (retype e p) | _ ↦ none ]

unfoldable pub as_lease : Envelope Payload → Option (Envelope Lease)
as_lease e = elim e.payload [ lease p ↦ some (retype e p) | _ ↦ none ]

unfoldable pub as_result : Envelope Payload → Option (Envelope Result)
as_result e = elim e.payload [ result p ↦ some (retype e p) | _ ↦ none ]

unfoldable pub as_attest : Envelope Payload → Option (Envelope Attest)
as_attest e = elim e.payload [ attest p ↦ some (retype e p) | _ ↦ none ]

unfoldable pub as_finalize : Envelope Payload → Option (Envelope Finalize)
as_finalize e = elim e.payload [ finalize p ↦ some (retype e p) | _ ↦ none ]
