-- ===== src/Sovereign/Tests/Demo.antt =====
-- src/sovereign: a concrete board, on which the theorems are applied.

use gstdbot.Common.{
  ℕ, String, true, false, ◌≡◌, refl, sym, ap, subst, ◌∙◌, inl, inr, some, List, [], ◌∷◌, Memᴰ,
  Memᴰ-cons, arith, map, any, Bool, not, ◌&&◌, ◌==◌, eq_refl, any_complete, and-true, Memᴰ-map_of,
}
use gstdbot.Sovereign.Envelope.{
  text, Envelope, Payload, Manifest, Funding, Result, DataVersion, Verdict, fetcher, verifier,
  publish, lease, result, attest, as_manifest,
}
use gstdbot.Sovereign.Crypto.{Primitives}
use gstdbot.Sovereign.Board.{Board, manifest, get}
use gstdbot.Sovereign.Board.Order.{IdsAgree}

abbrev pub prim : Primitives
prim = record { sha256_hex = λ s. s; ed_verify = λ id signer sig. some true }

abbrev pub of : Payload → String → ℕ → String → Envelope Payload
of p signer ts id = record { payload = p; signer = signer; ts = ts; nonce = ""; id = id; sig = "" }

abbrev pub demo_manifest : Manifest
demo_manifest = record {
  adapter = "npm";
  package_name = "left-pad";
  entity = "pkg";
  funding = Funding.subsidized;
  budget_nano = 1000;
  min_verifiers = 2;
  lease_ms = 1000;
  deadline = 100000;
  max_attempts = 3;
  backups = some ("b" ∷ []);
}

abbrev pub version : DataVersion
version = record {
  entity = "pkg";
  adapter = "npm";
  source = "registry";
  fetched_at = 3;
  content_hash = "h";
  content = text "1.3.0";
}

abbrev pub vote : String → Payload
vote hash = attest (record {
  task_id = "t";
  result_id = "r";
  verdict = Verdict.match;
  observed_hash = some hash;
  reason = "";
})

-- A task `t` of `p`: a result of `w`, and the votes of `v1` and `v2` for it.
abbrev pub demo_envelopes : List (Envelope Payload)
demo_envelopes =
    of (publish demo_manifest) "p" 10 "t"
    ∷ of
        (lease
          (record { task_id = "t"; role = fetcher; worker = "w"; epoch = 1; expires_at = 900 }))
        "p" 11 "l1"
    ∷ of
        (lease
          (record { task_id = "t"; role = verifier; worker = "v1"; epoch = 1; expires_at = 900 }))
        "p" 12 "l2"
    ∷ of
        (lease
          (record { task_id = "t"; role = verifier; worker = "v2"; epoch = 1; expires_at = 900 }))
        "p" 13 "l3"
    ∷ of (result (record { task_id = "t"; lease_id = "l1"; version = version })) "w" 14 "r"
    ∷ of (vote "h") "v1" 15 "a1"
    ∷ of (vote "h") "v2" 16 "a2"
    ∷ of (vote "h") "w" 16 "a3"
    ∷ []

abbrev pub demo : Board
demo = record { objects = demo_envelopes }

-- Whether the ids of a list of envelopes are distinct.
unfoldable pub ids_distinct : List String → Bool
ids_distinct [] = true
ids_distinct (x ∷ l) = not (any (λ y. y == x) l) && ids_distinct l

not_listed : (l : List String) (s : String) → any (λ y. y == s) l ≡ false → Memᴰ s l → ⊥
not_listed l s h m = cc (any_complete (λ y. y == s) m (eq_refl s), h)

pub IdsAgree-distinct :
    (l : List (Envelope Payload))
    → ids_distinct (map (λ (e : Envelope Payload). e.id) l) ≡ true
    → IdsAgree l
unfolding ids_distinct
IdsAgree-distinct [] h x y m n same = elim m [ ]
IdsAgree-distinct (e ∷ l) h x y m n same =
    let (fresh, rest) =
      and-true {a = not (any (λ y. y == e.id) (map (λ (e : Envelope Payload). e.id) l))} h in
    let new = not_listed (map (λ (e : Envelope Payload). e.id) l) e.id (ground arith) in
    elim (Memᴰ-cons m) [
      | inl p ↦ elim (Memᴰ-cons n) [
        | inl q ↦ p ∙ sym q
        | inr k ↦ absurd (
            new (
              subst (λ s. Memᴰ s (map (λ (e : Envelope Payload). e.id) l))
                (sym same ∙ ap (λ z. z.id) p) (Memᴰ-map_of (λ z. z.id) k)))
      ]
      | inr j ↦ elim (Memᴰ-cons n) [
        | inl q ↦ absurd (
            new (
              subst (λ s. Memᴰ s (map (λ (e : Envelope Payload). e.id) l)) (same ∙ ap (λ z. z.id) q)
                (Memᴰ-map_of (λ z. z.id) j)))
        | inr k ↦ IdsAgree-distinct l rest x y j k same
      ]
    ]

pub demo-IdsAgree : IdsAgree demo_envelopes
unfolding ids_distinct
demo-IdsAgree = IdsAgree-distinct demo_envelopes refl

abbrev pub typed : {P : Type 0} → P → String → ℕ → String → Envelope P
typed p signer ts id = record {
  payload = p;
  signer = signer;
  ts = ts;
  nonce = "";
  id = id;
  sig = "";
}

abbrev pub task_env : Envelope Manifest
task_env = typed demo_manifest "p" 10 "t"

pub demo-manifest : manifest demo "t" ≡ some task_env
unfolding manifest get as_manifest
demo-manifest = refl

abbrev pub result_env : Envelope Result
result_env = typed (record { task_id = "t"; lease_id = "l1"; version = version }) "w" 14 "r"
