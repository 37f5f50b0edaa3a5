-- ===== src/Sovereign/Bundle/Replay.antt =====
-- src/sovereign/board.ts: what a board holds that is made of a bundle.
use mathlib.Core.List.{filter_map-cons-none, filter_map-cons-some}
use gstdbot.Common.{
  append_nil, String, Option, none, some, [], ◌∷◌, ◌++◌, map, filter_map, filter_map-append,
  filter_map-map-none, filter_map-map-some, select, sort, ◌≡◌, refl, sym, ap, subst, ◌∙◌, inl, inr,
  eq_of_some, arith, Option-cases, Memᴰ, Memᴰ-cons, Memᴰ-append, Memᴰ-append_right, Memᴰ-map,
  Memᴰ-sort, Memᴰ-select, Memᴰ-filter_map, find_sound, by_rank, eq_iff, ◌==◌,
}
use gstdbot.Sovereign.Envelope.{
  Envelope, Payload, Manifest, Lease, Result, Attest, Finalize, announce, publish, lease, result,
  attest, finalize, as_manifest, as_lease, as_result, as_attest, as_finalize,
}
use gstdbot.Sovereign.Board.{
  Board, get, manifest, leases, of_type, results, attests, finalizes, is_finalize_of,
}
use gstdbot.Sovereign.Board.Order.{IdsAgree}
use gstdbot.Sovereign.Board.Backed.{leases_sound, results_sound}
use gstdbot.Sovereign.Board.Votes.{attests_sound}
use gstdbot.Sovereign.Board.Accepted.{get-held}
use gstdbot.Sovereign.Bundle.{
  of_manifest, of_lease, of_result, of_attest, of_finalize, bundle_envelopes,
}

-- An envelope is what its cast gives, typed back.
cast_manifest :
    (e : Envelope Payload) (p : Payload) {x : Envelope Manifest}
    → as_manifest (record e { payload = p }) ≡ some x
    → record e { payload = p } ≡ of_manifest x
unfolding as_manifest
cast_manifest e (announce q) h = absurd (ground arith)
cast_manifest e (publish q) h = ap of_manifest (eq_of_some h)
cast_manifest e (lease q) h = absurd (ground arith)
cast_manifest e (result q) h = absurd (ground arith)
cast_manifest e (attest q) h = absurd (ground arith)
cast_manifest e (finalize q) h = absurd (ground arith)

cast_lease :
    (e : Envelope Payload) (p : Payload) {x : Envelope Lease}
    → as_lease (record e { payload = p }) ≡ some x
    → record e { payload = p } ≡ of_lease x
unfolding as_lease
cast_lease e (announce q) h = absurd (ground arith)
cast_lease e (publish q) h = absurd (ground arith)
cast_lease e (lease q) h = ap of_lease (eq_of_some h)
cast_lease e (result q) h = absurd (ground arith)
cast_lease e (attest q) h = absurd (ground arith)
cast_lease e (finalize q) h = absurd (ground arith)

cast_result :
    (e : Envelope Payload) (p : Payload) {x : Envelope Result}
    → as_result (record e { payload = p }) ≡ some x
    → record e { payload = p } ≡ of_result x
unfolding as_result
cast_result e (announce q) h = absurd (ground arith)
cast_result e (publish q) h = absurd (ground arith)
cast_result e (lease q) h = absurd (ground arith)
cast_result e (result q) h = ap of_result (eq_of_some h)
cast_result e (attest q) h = absurd (ground arith)
cast_result e (finalize q) h = absurd (ground arith)

cast_attest :
    (e : Envelope Payload) (p : Payload) {x : Envelope Attest}
    → as_attest (record e { payload = p }) ≡ some x
    → record e { payload = p } ≡ of_attest x
unfolding as_attest
cast_attest e (announce q) h = absurd (ground arith)
cast_attest e (publish q) h = absurd (ground arith)
cast_attest e (lease q) h = absurd (ground arith)
cast_attest e (result q) h = absurd (ground arith)
cast_attest e (attest q) h = ap of_attest (eq_of_some h)
cast_attest e (finalize q) h = absurd (ground arith)

cast_finalize :
    (e : Envelope Payload) (p : Payload) {x : Envelope Finalize}
    → as_finalize (record e { payload = p }) ≡ some x
    → record e { payload = p } ≡ of_finalize x
unfolding as_finalize
cast_finalize e (announce q) h = absurd (ground arith)
cast_finalize e (publish q) h = absurd (ground arith)
cast_finalize e (lease q) h = absurd (ground arith)
cast_finalize e (result q) h = absurd (ground arith)
cast_finalize e (attest q) h = absurd (ground arith)
cast_finalize e (finalize q) h = ap of_finalize (eq_of_some h)

module _ (b : Board) (agree : IdsAgree b.objects) (task : String) (m : Envelope Manifest)
    (known : manifest b task ≡ some m) where
  manifest_held : Memᴰ (of_manifest m) b.objects × (m.id ≡ task)
  unfolding manifest get as_manifest
  manifest_held = elim (Option-cases (get b task)) [
    | inl e ↦ absurd (ground arith)
    | inr (x, e) ↦
        let cast : as_manifest x ≡ some m = ground arith in
        let (there, named) = find_sound (λ (y : Envelope Payload). y.id == task) b.objects e in
        let same : x ≡ of_manifest m = cast_manifest x x.payload cast in
        (
          subst (λ y. Memᴰ y b.objects) same there,
          sym (ap (λ (y : Envelope Payload). y.id) same) ∙ (eq_iff x.id task).0 named,
        )
  ]

  -- What is kept of a board is on it.
  leases_held : (l : Envelope Lease) → Memᴰ l (leases b task) → Memᴰ (of_lease l) b.objects
  leases_held l k =
      let (e, there, cast) = (leases_sound b task m known k).held in
      subst (λ y. Memᴰ y b.objects) (cast_lease e e.payload cast) there

  finalizes_held :
      (f : Envelope Finalize) → Memᴰ f (finalizes b task) → Memᴰ (of_finalize f) b.objects
  unfolding finalizes
  finalizes_held f k =
      let kept : Memᴰ f (
          sort (by_rank (λ (x : Envelope Finalize). x.ts) (λ x. x.id))
            (select (is_finalize_of m task) (of_type as_finalize b))) =
        rw (known, finalizes) at k in
      let (e, there, cast) =
        Memᴰ-filter_map as_finalize b.objects
          (Memᴰ-select (is_finalize_of m task) (of_type as_finalize b) (
            Memᴰ-sort (by_rank (λ (x : Envelope Finalize). x.ts) (λ x. x.id))
              (select (is_finalize_of m task) (of_type as_finalize b)) kept)).0 in
      subst (λ y. Memᴰ y b.objects) (cast_finalize e e.payload cast) there

  module _ (r : Envelope Result) (counted : Memᴰ r (results b task)) where
    result_held : Memᴰ (of_result r) b.objects
    result_held =
        let (e, there, cast) = (results_sound b task m known counted).held in
        subst (λ y. Memᴰ y b.objects) (cast_result e e.payload cast) there

    pub result_found : get b r.id ≡ some (of_result r)
    result_found = get-held b agree (of_result r) result_held

    attests_held :
        (a : Envelope Attest) → Memᴰ a (attests b task r.id) → Memᴰ (of_attest a) b.objects
    attests_held a k =
        let (e, there, cast) =
          (attests_sound b task r.id m (of_result r) {a = a} known result_found k).held in
        subst (λ y. Memᴰ y b.objects) (cast_attest e e.payload cast) there

    abbrev pub bundled : Board
    bundled = record { objects = bundle_envelopes b task m r.id (of_result r) }

    bundled_held : (x : Envelope Payload) → Memᴰ x bundled.objects → Memᴰ x b.objects
    bundled_held x k = elim (Memᴰ-cons k) [
      | inl e ↦ subst (λ y. Memᴰ y b.objects) (sym e) manifest_held.0
      | inr k1 ↦ elim (Memᴰ-append (map of_lease (leases b task)) k1) [
        | inl j ↦
            let (l, there, e) = Memᴰ-map of_lease (leases b task) j in
            subst (λ y. Memᴰ y b.objects) (sym e) (leases_held l there)
        | inr k2 ↦ elim (Memᴰ-cons k2) [
          | inl e ↦ subst (λ y. Memᴰ y b.objects) (sym e) result_held
          | inr k3 ↦ elim (Memᴰ-append (map of_attest (attests b task r.id)) k3) [
            | inl j ↦
                let (a, there, e) = Memᴰ-map of_attest (attests b task r.id) j in
                subst (λ y. Memᴰ y b.objects) (sym e) (attests_held a there)
            | inr j ↦
                let (f, there, e) = Memᴰ-map of_finalize (finalizes b task) j in
                subst (λ y. Memᴰ y b.objects) (sym e) (finalizes_held f there)
          ]
        ]
      ]
    ]

    pub bundled_agree : IdsAgree bundled.objects
    bundled_agree x y k j same = agree x y (bundled_held x k) (bundled_held y j) same

    pub bundled-manifest : manifest bundled task ≡ some m
    unfolding manifest as_manifest
    bundled-manifest =
        let found = get-held bundled bundled_agree (of_manifest m) (Memᴰ.head refl) in
        rw (manifest, subst (λ i. get bundled i ≡ some (of_manifest m)) manifest_held.1 found) refl

    pub bundled-result : get bundled r.id ≡ some (of_result r)
    bundled-result =
        get-held bundled bundled_agree (of_result r)
          (Memᴰ.tail (Memᴰ-append_right (map of_lease (leases b task)) (Memᴰ.head refl)))

    -- The envelopes of a type that is neither a manifest nor a result.
    parts :
        {P : Type 0} (f : Envelope Payload → Option P)
        → f (of_manifest m) ≡ none
        → f (of_result r) ≡ none
        → filter_map f bundled.objects
          ≡ filter_map f (map of_lease (leases b task))
            ++ (filter_map f (map of_attest (attests b task r.id))
                ++ filter_map f (map of_finalize (finalizes b task)))
    parts f h k =
        let rest = map of_attest (attests b task r.id) ++ map of_finalize (finalizes b task) in
        filter_map-cons-none f (of_manifest m)
          (map of_lease (leases b task) ++ (of_result r ∷ rest)) h
        ∙ filter_map-append f (map of_lease (leases b task)) (of_result r ∷ rest)
        ∙ ap (λ l. filter_map f (map of_lease (leases b task)) ++ l)
            (filter_map-cons-none f (of_result r) rest k
              ∙ filter_map-append f (map of_attest (attests b task r.id))
                  (map of_finalize (finalizes b task)))

    pub bundled-leases_of : of_type as_lease bundled ≡ leases b task
    unfolding as_lease
    bundled-leases_of =
        parts as_lease refl refl
        ∙ rw
            (
              filter_map-map-some as_lease of_lease (λ l. refl) (leases b task),
              filter_map-map-none as_lease of_attest (λ a. refl) (attests b task r.id),
              filter_map-map-none as_lease of_finalize (λ a. refl) (finalizes b task),
            )
            (append_nil (leases b task))

    pub bundled-attests_of : of_type as_attest bundled ≡ attests b task r.id
    unfolding as_attest
    bundled-attests_of =
        parts as_attest refl refl
        ∙ rw
            (
              filter_map-map-none as_attest of_lease (λ l. refl) (leases b task),
              filter_map-map-some as_attest of_attest (λ a. refl) (attests b task r.id),
              filter_map-map-none as_attest of_finalize (λ a. refl) (finalizes b task),
            )
            (append_nil (attests b task r.id))

    pub bundled-finalizes_of : of_type as_finalize bundled ≡ finalizes b task
    unfolding as_finalize
    bundled-finalizes_of =
        parts as_finalize refl refl
        ∙ rw
            (
              filter_map-map-none as_finalize of_lease (λ l. refl) (leases b task),
              filter_map-map-none as_finalize of_attest (λ a. refl) (attests b task r.id),
              filter_map-map-some as_finalize of_finalize (λ a. refl) (finalizes b task),
            )
            refl

    pub bundled-results_of : of_type as_result bundled ≡ r ∷ []
    unfolding as_result
    bundled-results_of =
        let rest = map of_attest (attests b task r.id) ++ map of_finalize (finalizes b task) in
        filter_map-cons-none as_result (of_manifest m)
          (map of_lease (leases b task) ++ (of_result r ∷ rest)) refl
        ∙ filter_map-append as_result (map of_lease (leases b task)) (of_result r ∷ rest)
        ∙ ap (λ l. l ++ filter_map as_result (of_result r ∷ rest))
            (filter_map-map-none as_result of_lease (λ l. refl) (leases b task))
        ∙ filter_map-cons-some as_result (of_result r) rest refl
        ∙ ap (λ l. r ∷ l)
            (filter_map-append as_result (map of_attest (attests b task r.id))
                (map of_finalize (finalizes b task))
              ∙ rw
                  (
                    filter_map-map-none as_result of_attest (λ a. refl) (attests b task r.id),
                    filter_map-map-none as_result of_finalize (λ a. refl) (finalizes b task),
                  )
                  refl)
