-- ===== src/Sovereign/Node/Duties/Coordinates.antt =====
-- src/sovereign/node.ts and src/sovereign/board.ts: a node coordinates only where the board of every
-- node grants it.
use gstdbot.Common.{
  ℕ, suc, ◌+◌, ◌*◌, ◌-◌, ◌≤◌, ◌<◌, ltb, le→leb, eqb, String, ◌==◌, eq_iff, true, false, ◌&&◌, ◌||◌,
  some, List, [], ◌∷◌, ◌++◌, map, select, sort, by_rank, arith, ◌≡◌, refl, sym, ap, ◌∙◌, subst, ◌⊎◌,
  inl, inr, Bool-cases, Option-cases, Memᴰ, Memᴰ-append, Memᴰ-map, Memᴰ-sort, Memᴰ-select,
  eq_of_some, and-true,
}
use gstdbot.Sovereign.Envelope.{Envelope, Manifest, Finalize, as_finalize}
use gstdbot.Sovereign.Board.{
  Board, manifest, of_type, leases, finalizes, is_finalize_of, includes, backups_of, failover_ms,
  is_coordinator,
}
use gstdbot.Sovereign.Board.Backed.{MayCoordinate, is_coordinator_sound, leases_sound}
use gstdbot.Sovereign.Board.Entities.{Activity, activity_of, latest_of, last_coordinator}
use gstdbot.Sovereign.Node.Duties.{index_of, takes_over, coordinates}

pub finalizes_sound :
    (b : Board) (task : String) (m : Envelope Manifest) {f : Envelope Finalize}
    → manifest b task ≡ some m
    → Memᴰ f (finalizes b task)
    → MayCoordinate m f
unfolding finalizes
finalizes_sound b task m {f} known mem =
    let sorted : Memᴰ f (
        sort (by_rank (λ (x : Envelope Finalize). x.ts) (λ (x : Envelope Finalize). x.id))
          (select (is_finalize_of m task) (of_type as_finalize b))) =
      rw (known, finalizes) at mem in
    let (there, passed) = Memᴰ-select (is_finalize_of m task) _ (Memᴰ-sort _ _ sorted) in
    let (same, by) = and-true {a = f.payload.task_id == task} passed in is_coordinator_sound m f by

-- The latest is one of the activities, and no earlier than the first.
latest_of_lem :
    (publisher : String) (last : Activity) (es : List Activity)
    → ((latest_of publisher last es ≡ last) ⊎ Memᴰ (latest_of publisher last es) es)
      × (last.ts ≤ (latest_of publisher last es).ts)
unfolding latest_of
latest_of_lem publisher last [] = (inl refl, omega arith)
latest_of_lem publisher last (e ∷ es) =
    elim (Bool-cases (ltb last.ts e.ts || eqb e.ts last.ts && e.signer == publisher)) [
      | inl c ↦
          let (which, after) = latest_of_lem publisher e es in
          rw c (
            elim which [ inl same ↦ inr (Memᴰ.head same) | inr m ↦ inr (Memᴰ.tail m) ],
            ground (arith, after),
          )
      | inr c ↦
          let (which, after) = latest_of_lem publisher last es in
          rw c (elim which [ inl same ↦ inl same | inr m ↦ inr (Memᴰ.tail m) ], after)
    ]

-- Who may have been active: the publisher, or a backup after the publisher's silence.
abbrev MayAct : Envelope Manifest → Activity → Type 0
MayAct m a =
    (a.signer ≡ m.signer)
    ⊎ Memᴰ a.signer (backups_of m.payload) × (m.ts + failover_ms m.payload ≤ a.ts)

last_coordinator_sound :
    (b : Board) (task : String) (m : Envelope Manifest) {a : Activity}
    → manifest b task ≡ some m
    → last_coordinator b task ≡ some a
    → (m.ts ≤ a.ts) × MayAct m a
unfolding last_coordinator
last_coordinator_sound b task m {a} known found =
    let start : Activity = activity_of m in
    let ls = map activity_of (leases b task) in
    let fs = map activity_of (finalizes b task) in
    let same : latest_of m.signer start (ls ++ fs) ≡ a =
      eq_of_some (rw (last_coordinator, known) at found) in
    let (which, after) = latest_of_lem m.signer start (ls ++ fs) in
    let acted : MayAct m (latest_of m.signer start (ls ++ fs)) = elim which [
      | inl e ↦ inl (ap (λ (x : Activity). x.signer) e)
      | inr n ↦ elim (Memᴰ-append ls n) [
        | inl k ↦
            let (l, there, e) = Memᴰ-map activity_of (leases b task) k in
            subst (MayAct m) (sym e) (leases_sound b task m known there).authorized
        | inr k ↦
            let (f, there, e) = Memᴰ-map activity_of (finalizes b task) k in
            subst (MayAct m) (sym e) (finalizes_sound b task m known there)
      ]
    ] in
    subst (λ (x : Activity). (m.ts ≤ x.ts) × MayAct m x) same (after, acted)

index_of-includes :
    (s : String) (l : List String) {i : ℕ} → index_of s l ≡ some i → includes l s ≡ true
unfolding index_of
index_of-includes s [] h = absurd (ground arith)
index_of-includes s (x ∷ l) h = elim (Bool-cases (x == s)) [
  | inl e ↦ rw e refl
  | inr e ↦ elim (Option-cases (index_of s l)) [
    | inl f ↦ absurd (ground arith)
    | inr (j, f) ↦ rw e (index_of-includes s l f)
  ]
]

entitled :
    {P : Type 0} (m : Envelope Manifest) (e : Envelope P)
    → includes (backups_of m.payload) e.signer ≡ true
    → m.ts + failover_ms m.payload ≤ e.ts
    → is_coordinator m e ≡ true
unfolding is_coordinator
entitled m e named late = elim (Bool-cases (e.signer == m.signer)) [
  | inl k ↦ rw k refl
  | inr k ↦ rw (k, named, le→leb (m.ts + failover_ms m.payload) e.ts late) refl
]

failover_ms_pos : (m : Manifest) → 0 < failover_ms m
unfolding failover_ms
failover_ms_pos m = omega arith

silent :
    (f rank start last now : ℕ) → start ≤ last → f * suc rank ≤ now - last → 0 < f → start + f ≤ now
silent f rank start last now h k pos = let least : f ≤ f * suc rank = grind arith in omega arith

takes_over-entitled :
    {P : Type 0} (me : String) (now : ℕ) (m : Envelope Manifest) (rank : ℕ) (last : Activity)
    (e : Envelope P)
    → includes (backups_of m.payload) me ≡ true
    → (m.signer == me) ≡ false
    → (m.ts ≤ last.ts) × MayAct m last
    → takes_over me now m.payload rank last ≡ true
    → e.signer ≡ me
    → now ≤ e.ts
    → last.ts ≤ e.ts
    → is_coordinator m e ≡ true
takes_over-entitled me now m rank last e named other (after, acted) h mine later behind =
    elim (Bool-cases (last.signer == me)) [
      | inl k ↦
          let same : last.signer ≡ me = (eq_iff last.signer me).0 k in
          elim acted [
            | inl p ↦ absurd (ground (arith, (eq_iff m.signer me).1 (sym p ∙ same)))
            | inr (_, late) ↦ entitled m e (rw mine named) (omega arith)
          ]
      | inr k ↦
          let long : failover_ms m.payload * suc rank ≤ now - last.ts = ground arith in
          entitled m e (rw mine named) (
            omega (
              arith,
              silent (failover_ms m.payload) rank m.ts last.ts now after long
                  (failover_ms_pos m.payload),
            ))
    ]

-- When a node takes itself for the coordinator of a task, whatever it signs for the task from then on,
-- at a time that is not before the coordinators' last activity, is a coordinator's envelope to every
-- board that holds the manifest: the node is the publisher, or a backup after the failover window.
pub coordinates-is_coordinator :
    {P : Type 0} (me : String) (b : Board) (now : ℕ) (task : String) (m : Envelope Manifest)
    (e : Envelope P)
    → manifest b task ≡ some m
    → coordinates me b now task ≡ true
    → e.signer ≡ me
    → now ≤ e.ts
    → ((last : Activity) → last_coordinator b task ≡ some last → last.ts ≤ e.ts)
    → is_coordinator m e ≡ true
unfolding coordinates is_coordinator
coordinates-is_coordinator me b now task m e known h mine later behind =
    elim (Bool-cases (m.signer == me)) [
      | inl k ↦
          let same : e.signer ≡ m.signer = mine ∙ sym ((eq_iff m.signer me).0 k) in
          rw ((eq_iff e.signer m.signer).1 same) refl
      | inr k ↦ elim (Option-cases (index_of me (backups_of m.payload))) [
        | inl f ↦ absurd (ground (arith, h, known, k, f))
        | inr (rank, f) ↦ elim (Option-cases (last_coordinator b task)) [
          | inl g ↦ absurd (ground (arith, h, known, k, f, g))
          | inr (last, g) ↦
              let due : takes_over me now m.payload rank last ≡ true =
                rw (coordinates, known, k, f, g) at h in
              takes_over-entitled me now m rank last e
                (index_of-includes me (backups_of m.payload) f) k
                (last_coordinator_sound b task m known g) due mine later (behind last g)
        ]
      ]
    ]
