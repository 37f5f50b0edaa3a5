-- ===== src/Sovereign/Board/Store.antt =====
-- src/sovereign/board.ts: the Map of envelopes, and who may coordinate a task.
use gstdbot.Common.{
  ℕ, ◌+◌, ◌*◌, max, leb, String, ◌==◌, Bool, true, ◌&&◌, if◌then◌else◌, Option, none, some, List,
  [], map, filter_map, any, find, sort, str_lt,
}
use gstdbot.Sovereign.Envelope.{Envelope, Payload, Manifest, as_manifest}

-- `objects` is the Map in insertion order; an id occurs in it once.
pub record Board : Type 0 where
  pub objects : List (Envelope Payload)

unfoldable pub failover_ms : Manifest → ℕ
failover_ms m = max 5000 (2 * m.lease_ms)

abbrev pub backups_of : Manifest → List String
backups_of m = elim m.backups [ none ↦ [] | some l ↦ l ]

abbrev pub includes : List String → String → Bool
includes l s = any (λ x. x == s) l

unfoldable pub is_coordinator : {P : Type 0} → Envelope Manifest → Envelope P → Bool
unfolding failover_ms
is_coordinator m e =
    if e.signer == m.signer
    then true
    else includes (backups_of m.payload) e.signer && leb (m.ts + failover_ms m.payload) e.ts

unfoldable pub get : Board → String → Option (Envelope Payload)
get b id = find (λ e. e.id == id) b.objects

unfoldable pub has : Board → String → Bool
has b id = any (λ e. e.id == id) b.objects

unfoldable pub ids : Board → List String
unfolding sort str_lt
ids b = sort str_lt (map (λ (e : Envelope Payload). e.id) b.objects)

-- The envelopes of one type.
abbrev pub of_type :
    {P : Type 0} → (Envelope Payload → Option (Envelope P)) → Board → List (Envelope P)
of_type cast b = filter_map cast b.objects

unfoldable pub task_ids : Board → List String
unfolding sort str_lt
task_ids b = sort str_lt (map (λ (e : Envelope Manifest). e.id) (of_type as_manifest b))

unfoldable pub manifest : Board → String → Option (Envelope Manifest)
unfolding get
manifest b task = elim (get b task) [ none ↦ none | some e ↦ as_manifest e ]
