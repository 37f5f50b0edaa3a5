-- ===== src/Sovereign/Ingest/Deliver.antt =====
-- src/sovereign/board.ts: a board is the set of the admissible envelopes that reached it. The order
-- of the deliveries does not show in any verdict.
use gstdbot.Common.{
  ℕ, String, ◌≡◌, refl, ap, ◌∙◌, Option, none, some, List, [], ◌∷◌, Memᴰ, Permᴰ-of_same, ◌↔◌, ◌⊎◌,
  inl, inr, Option-cases, arith, filter_map,
}
use gstdbot.Sovereign.Envelope.{Json, Envelope, Payload}
use gstdbot.Sovereign.Crypto.{Primitives, Header, passed, refused, verify_envelope, member}
use gstdbot.Sovereign.Schema.{schema_of, schema}
use gstdbot.Sovereign.Board.{Board, has, evaluate}
use gstdbot.Sovereign.Board.Order.{IdsAgree, evaluate-perm}
use gstdbot.Sovereign.Ingest.{ingest, check_content, id_of, envelope_of}
use mathlib.Core.List.{filter_map-cons-none, filter_map-cons-some}
use gstdbot.Sovereign.Ingest.Puts.{
  put, put_all, Distinct-put_all, Memᴰ-put_all, Memᴰ-put_all_new, AllAgree, IdsAgree-put_all,
}

module _ (prim : Primitives) where
  abbrev admit_payload : Header → String → Option Payload → Option (Envelope Payload)
  admit_payload h id none = none
  admit_payload h id (some p) = elim (check_content prim p) [
    | some r ↦ none
    | none ↦ some (envelope_of h id p)
  ]

  -- The envelope that a delivery carries, if every check but the one for duplicates passes.
  unfoldable pub admit : ℕ → Json → Option (Envelope Payload)
  admit now e = elim (verify_envelope prim e now) [
    | refused r ↦ none
    | passed h ↦ elim (schema_of h.kind) [
      | schema parse ↦ admit_payload h (id_of e) (parse (member e "payload"))
      | _ ↦ none
    ]
  ]

abbrev put_some : Board → Option (Envelope Payload) → Board
put_some b none = b
put_some b (some x) = record { objects = put b.objects x }

module _ (prim : Primitives) where
  ingest_put :
      (b : Board) (e : Json) (now : ℕ) → (ingest prim b e now).0 ≡ put_some b (admit prim now e)
  unfolding ingest admit put has
  ingest_put b e now = ground arith

from_new : {x : Envelope Payload} {l : List (Envelope Payload)} → Memᴰ x [] ⊎ Memᴰ x l → Memᴰ x l
from_new (inl m) = elim m [ ]
from_new (inr m) = m

map_right {ℓ} : {A B C : Type ℓ} → (B → C) → A ⊎ B → A ⊎ C
map_right f (inl a) = inl a
map_right f (inr b) = inr (f b)

-- The board after a sequence of deliveries, each with the time at which it came.
unfoldable pub deliver : Primitives → Board → List (ℕ × Json) → Board
deliver prim b [] = b
deliver prim b ((now, e) ∷ ds) = deliver prim (ingest prim b e now).0 ds

abbrev pub empty : Board
empty = record { objects = [] }

module _ (prim : Primitives) where
  abbrev pub admitted : List (ℕ × Json) → List (Envelope Payload)
  admitted ds = filter_map (λ d. admit prim d.0 d.1) ds

  put_all-cons :
      (now : ℕ) (e : Json) (ds : List (ℕ × Json)) (b : Board)
      → put_all (put_some b (admit prim now e)).objects (admitted ds)
        ≡ put_all b.objects (admitted ((now, e) ∷ ds))
  unfolding put_all
  put_all-cons now e ds b = elim (Option-cases (admit prim now e)) [
    | inl h ↦ rw (h, filter_map-cons-none (λ d. admit prim d.0 d.1) (now, e) ds h)
    | inr (x, h) ↦ rw (h, filter_map-cons-some (λ d. admit prim d.0 d.1) (now, e) ds h)
  ]

  deliver_lem :
      (ds : List (ℕ × Json)) (b : Board)
      → (deliver prim b ds).objects ≡ put_all b.objects (admitted ds)
  unfolding deliver put_all filter_map
  deliver_lem [] b = refl
  deliver_lem ((now, e) ∷ ds) b =
      deliver_lem ds (ingest prim b e now).0
      ∙ ap (λ (c : Board). put_all c.objects (admitted ds)) (ingest_put prim b e now)
      ∙ put_all-cons now e ds b

  -- Whatever is delivered, an id names one envelope on the board.
  pub deliver-IdsAgree : (ds : List (ℕ × Json)) → IdsAgree (deliver prim empty ds).objects
  deliver-IdsAgree ds =
      rw (deliver_lem ds empty) (IdsAgree-put_all [] (admitted ds) (λ x y m. elim m [ ]))

  -- Two nodes that were delivered the same admissible envelopes, in any order and any number of
  -- times, give every task the same verdict, where envelopes with one id are one envelope.
  pub deliver-evaluate :
      (ds ds' : List (ℕ × Json)) (task : String) (now : ℕ)
      → AllAgree [] (admitted ds)
      → ((x : Envelope Payload) → Memᴰ x (admitted ds) ↔ Memᴰ x (admitted ds'))
      → evaluate (deliver prim empty ds) task now ≡ evaluate (deliver prim empty ds') task now
  deliver-evaluate ds ds' task now agree same =
      let xs = admitted ds in
      let ys = admitted ds' in
      let agree' : AllAgree [] ys =
        λ u v mu mv. agree u v (map_right (same u).1 mu) (map_right (same v).1 mv) in
      evaluate-perm
        (rw (deliver_lem ds empty, deliver_lem ds' empty)
          (Permᴰ-of_same (put_all [] xs) (put_all [] ys) (Distinct-put_all [] xs tt)
            (Distinct-put_all [] ys tt)
            (λ x. (
              λ m. Memᴰ-put_all_new [] ys agree' ((same x).0 (from_new (Memᴰ-put_all [] xs m))),
              λ m. Memᴰ-put_all_new [] xs agree ((same x).1 (from_new (Memᴰ-put_all [] ys m))),
            ))))
        (deliver-IdsAgree ds) task now
