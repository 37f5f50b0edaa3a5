-- ===== src/Sovereign/Node/Objects/Restored.antt =====
-- src/sovereign/node.ts: a node that starts again has the board that it had.
use gstdbot.Common.{
  ℕ, ◌≤◌, false, List, [], ◌∷◌, Piece, read, read_lines, read-ended, read-append_json,
  read-append_json_tail, append_json, filter_map, ◌++◌, arith, ◌≡◌, ◌⊎◌, refl, sym, ◌∙◌, ap, inl,
  inr,
}
use gstdbot.Sovereign.Envelope.{Json}
use gstdbot.Sovereign.Crypto.{
  ◌>>=◌, Refusal, Primitives, Header, Check, passed, refused, verify_envelope, check_form,
}
use gstdbot.Sovereign.Board.{Board}
use gstdbot.Sovereign.Ingest.{ingest, Outcome, added, throws, not_added}
use gstdbot.Sovereign.Ingest.Deliver.{empty}
use gstdbot.Sovereign.Node.Objects.{
  Objects, no_objects, crashed, is_added, write_added, store, restore, restarted, store_all,
}

>>=-eq-passed {ℓ κ} :
    {A : Type ℓ} {B : Type κ} (m : Check A) (f : A → Check B) {b : B}
    → (m >>= f) ≡ passed b
    → (a : A) × (m ≡ passed a) × (f a ≡ passed b)
>>=-eq-passed (passed a) f h = (a, refl, h)
>>=-eq-passed (refused r) f h = absurd (cc)

check_form_later :
    (e : Json) (now later : ℕ) (h : Header)
    → now ≤ later
    → check_form e now ≡ passed h
    → check_form e later ≡ passed h
unfolding check_form
check_form_later e now later h le ok = ground arith

module _ (prim : Primitives) where
  verify_envelope_later :
      (e : Json) (now later : ℕ) (h : Header)
      → now ≤ later
      → verify_envelope prim e now ≡ passed h
      → verify_envelope prim e later ≡ passed h
  unfolding verify_envelope
  verify_envelope_later e now later h le ok =
      let (g, formed, rest) = >>=-eq-passed (check_form e now) _ ok in
      rw (verify_envelope, check_form_later e now later g le formed) rest

  -- What is added at one time is added at any later one, to the same board.
  ingest_later :
      (b : Board) (e : Json) (now later : ℕ)
      → now ≤ later
      → (ingest prim b e now).1 ≡ added
      → ingest prim b e later ≡ ingest prim b e now
  unfolding ingest
  ingest_later b e now later le ok = elim (verdict (verify_envelope prim e now)) [
    | inl (r, f) ↦ absurd (refused_added ok f)
    | inr (h, f) ↦ rw (ingest, f, verify_envelope_later e now later h le f) refl
  ]
    where
      verdict :
          (c : Check Header) → ((r : Refusal) × (c ≡ refused r)) ⊎ ((h : Header) × (c ≡ passed h))
      verdict (refused r) = inl (r, refl)
      verdict (passed h) = inr (h, refl)

      refused_added :
          {r : Refusal}
          → (ingest prim b e now).1 ≡ added
          → verify_envelope prim e now ≡ refused r
          → ⊥
      refused_added h f = ground arith

  restore-append :
      (now : ℕ) (es : List Json) (e : Json) (b : Board)
      → restore prim now (es ++ e ∷ []) b ≡ (ingest prim (restore prim now es b) e now).0
  unfolding restore
  restore-append now [] e b = refl
  restore-append now (x ∷ es) e b = restore-append now es e (ingest prim b x now).0

  -- The file gives the board back.
  abbrev pub Restores : ℕ → Objects → Type 0
  Restores later o = (restore prim later (read o.file) empty ≡ o.board) × (o.file.tail ≡ [])

  not_added_keeps :
      (b : Board) (e : Json) (now : ℕ)
      → is_added (ingest prim b e now).1 ≡ false
      → (ingest prim b e now).0 ≡ b
  unfolding ingest
  not_added_keeps b e now h = ground arith

  write_added-Restores :
      (later : ℕ) (e : Json) (o : Objects) (r : Board × Outcome)
      → Restores later o
      → (r.1 ≡ added → (ingest prim o.board e later).0 ≡ r.0)
      → (is_added r.1 ≡ false → r.0 ≡ o.board)
      → Restores later (write_added prim e r o)
  unfolding append_json
  write_added-Restores later e o (c, added) (kept, clean) again same = (
    ap (λ l. restore prim later l empty) (read-append_json e o.file clean)
        ∙ restore-append later (read o.file) e empty
        ∙ ap (λ x. (ingest prim x e later).0) kept
        ∙ again refl,
    refl,
  )
  write_added-Restores later e o (c, throws) (kept, clean) again same =
      (kept ∙ sym (same refl), clean)
  write_added-Restores later e o (c, not_added r) (kept, clean) again same =
      (kept ∙ sym (same refl), clean)

  store-Restores :
      (now later : ℕ) (e : Json) (o : Objects)
      → now ≤ later
      → Restores later o
      → Restores later (store prim now e o)
  unfolding store
  store-Restores now later e o le kept =
      write_added-Restores later e o (ingest prim o.board e now) kept
        (λ h. ap (λ (r : Board × Outcome). r.0) (ingest_later o.board e now later le h))
        (not_added_keeps o.board e now)

  -- All the deliveries came up to a time.
  abbrev pub AreUntil : ℕ → List (ℕ × Json) → Type 0
  AreUntil later [] = Unit
  AreUntil later ((now, e) ∷ es) = (now ≤ later) × AreUntil later es

  store_all-Restores :
      (later : ℕ) (es : List (ℕ × Json)) (o : Objects)
      → AreUntil later es
      → Restores later o
      → Restores later (store_all prim es o)
  unfolding store_all
  store_all-Restores later [] o u kept = kept
  store_all-Restores later ((now, e) ∷ es) o (le, u) kept =
      store_all-Restores later es (store prim now e o) u (store-Restores now later e o le kept)

  no_objects-Restores : (later : ℕ) → Restores later no_objects
  unfolding restore read filter_map
  no_objects-Restores later = (refl, refl)

  -- Whatever a node is sent, a node that starts again from its file, at any time that is not before
  -- the deliveries, has the board that it had.
  pub restore-store_all :
      (later : ℕ) (es : List (ℕ × Json))
      → AreUntil later es
      → restore prim later (read (store_all prim es no_objects).file) empty
        ≡ (store_all prim es no_objects).board
  restore-store_all later es u =
      (store_all-Restores later es no_objects u (no_objects-Restores later)).0

  -- What is stored behind a piece of a line takes its place in the file: neither is read.
  store_unread :
      (now : ℕ) (e : Json) (p : Piece Json) (o : Objects)
      → o.file.tail ≡ p ∷ []
      → (ingest prim o.board e now).1 ≡ added
      → read (store prim now e o).file ≡ read_lines o.file.ended
  unfolding store
  store_unread now e p o torn ok = written (ingest prim o.board e now) ok
    where
      written :
          (r : Board × Outcome)
          → r.1 ≡ added
          → read (write_added prim e r o).file ≡ read_lines o.file.ended
      written (c, added) h = read-append_json_tail e o.file p [] torn
      written (c, throws) h = absurd (cc)
      written (c, not_added r) h = absurd (cc)

  -- A crash leaves a piece of a line at the end of the file: all of an envelope but the newline, or a
  -- part of one. A node starts from that file and adds an envelope: the next start then has the board
  -- that there was before the crash, with neither that envelope nor the one of the piece.
  pub restore-store-crashed :
      (start now later : ℕ) (es : List (ℕ × Json)) (p : Piece Json) (e : Json)
      → AreUntil later es
      → (ingest prim
          (restarted prim start (crashed p (store_all prim es no_objects))).board
          e
          now).1
        ≡ added
      → (restarted prim later (
          store prim now e (restarted prim start (crashed p (store_all prim es no_objects))))).board
        ≡ (store_all prim es no_objects).board
  restore-store-crashed start now later es p e u ok =
      let o = store_all prim es no_objects in
      let (kept, clean) = store_all-Restores later es no_objects u (no_objects-Restores later) in
      ap (λ l. restore prim later l empty)
        (store_unread now e p (restarted prim start (crashed p o)) (ap (λ t. t ++ p ∷ []) clean) ok
          ∙ sym (read-ended o.file clean))
      ∙ kept
