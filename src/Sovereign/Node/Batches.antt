-- ===== src/Sovereign/Node/Batches.antt =====
-- src/sovereign/node.ts: the loop of `syncPeer` that asks a peer for the objects that are missing.
use gstdbot.Common.{
  true, false, ◌==◌, ◌⊎◌, ℕ, zero, suc, ◌+◌, ◌<◌, ◌≤◌, ltb, length, take, drop, String, not, ◌&&◌,
  List, [], ◌∷◌, ◌++◌, filter_map, if◌then◌else◌, select, ◌≡◌,
}
use gstdbot.Sovereign.Envelope.{Json, text}
use gstdbot.Sovereign.Json.{is_hex}
use gstdbot.Sovereign.Crypto.{text_of}
use gstdbot.Sovereign.Board.{Board, has}

-- The ids that the peer has and the board lacks.
abbrev pub missing_ids : Board → List Json → List String
missing_ids b ids = select (λ id. is_hex 64 id && not (has b id)) (filter_map text_of ids)

abbrev pub batch_size : ℕ
batch_size = 100

-- `for (let i = 0; i < missing.length; i += 100)`: the slices asked for, on fuel.
unfoldable pub batches {ℓ} : {A : Type ℓ} → ℕ → ℕ → List A → List (List A)
batches zero i missing = []
batches (suc fuel) i missing =
    let rest = batches fuel (i + batch_size) missing in
    if ltb i (length missing) then take batch_size (drop i missing) ∷ rest else []

-- One round for each id is more than enough fuel.
abbrev pub all_batches {ℓ} : {A : Type ℓ} → List A → List (List A)
all_batches missing = batches (suc (length missing)) 0 missing

abbrev pub flatten {ℓ} : {A : Type ℓ} → List (List A) → List A
flatten [] = []
flatten (l ∷ ls) = l ++ flatten ls

-- Each is of 1 to 100.
abbrev pub AreSmall {ℓ} : {A : Type ℓ} → List (List A) → Type 0
AreSmall [] = Unit
AreSmall (l ∷ ls) = (0 < length l) × (length l ≤ 100) × AreSmall ls

-- How often a text is in a list, and in a list of JSON values.
abbrev pub times : String → List String → ℕ
times x [] = 0
times x (y ∷ l) = if y == x then suc (times x l) else times x l

abbrev pub times_listed : String → List Json → ℕ
times_listed x [] = 0
times_listed x (j ∷ l) =
    let rest = times_listed x l in elim j [ text y ↦ if y == x then suc rest else rest | _ ↦ rest ]

-- The requests that ask a peer for what it listed and the board lacks.
pub record AreRequests (b : Board) (ids : List Json) (requests : List (List String)) : Type 0 where
  pub missing :
      (x : String)
      → is_hex 64 x ≡ true
      → has b x ≡ false
      → times x (flatten requests) ≡ times_listed x ids
  pub others :
      (x : String) → (is_hex 64 x ≡ false) ⊎ (has b x ≡ true) → times x (flatten requests) ≡ 0
  pub sizes : AreSmall requests
