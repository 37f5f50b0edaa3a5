-- ===== src/Sovereign/Board/Order.antt =====
-- src/sovereign/board.ts: the views do not depend on the order in which envelopes arrived.
use mathlib.Core.List.Permᴰ
use mathlib.Core.Path.{fun_ext}
use gstdbot.Common.{
  ℕ, String, Bool, true, ◌≡◌, sym, ap, ◌∙◌, ◌⊎◌, inl, inr, Option, none, some, List, [], ◌∷◌,
  select, find, find_map, find_sound, find-none, sort, sort-perm, IsStrictOrder, by_rank,
  by_rank_cases, by_rank-IsStrictOrder, str_lt_cases, str_lt-IsStrictOrder, Memᴰ, Permᴰ,
  Memᴰ-of_perm, Memᴰ-filter_map, Option-cases, arith, eq_of_some, eq_iff, ◌==◌, when, when-eq-some,
}
use gstdbot.Sovereign.Envelope.{
  Envelope, Payload, Manifest, Result, as_lease, as_result, as_attest, as_finalize,
}
use gstdbot.Sovereign.Board.Store.{Board, get, manifest, of_type}
use gstdbot.Sovereign.Board.Views.{
  leases, results, attests, finalizes, is_lease_of, epoch_rank, epoch_of, is_result_of, is_fetcher,
  is_attest_of, is_finalize_of, id_lt,
}
use gstdbot.Sovereign.Board.Verdict.{
  evaluate, tally, accepts, accepted_as, content_hash_of, decided, pending, accepted_pin, pinned,
  Tally, accepted_result, rejected_result,
}

-- An id names one envelope among these.
abbrev pub IdsAgree : List (Envelope Payload) → Type 0
IdsAgree l = (x y : Envelope Payload) → Memᴰ x l → Memᴰ y l → x.id ≡ y.id → x ≡ y

-- A cast keeps the id of what it casts.
abbrev pub KeepsId : {P : Type 0} → (Envelope Payload → Option (Envelope P)) → Type 0
KeepsId {P} cast = (e : Envelope Payload) (x : Envelope P) → cast e ≡ some x → x.id ≡ e.id

find-perm {ℓ} :
    {A : Type ℓ} (p : A → Bool) {xs ys : List A}
    → Permᴰ xs ys
    → ((x y : A) → Memᴰ x xs → Memᴰ y xs → p x ≡ true → p y ≡ true → x ≡ y)
    → find p xs ≡ find p ys
find-perm p {xs} {ys} perm one = elim (Option-cases (find p xs)) [
  | inl e ↦ elim (Option-cases (find p ys)) [
    | inl f ↦ e ∙ sym f
    | inr (y, f) ↦
        let (m, h) = find_sound p ys f in absurd (cc (find-none p e (Memᴰ-of_perm perm m), h))
  ]
  | inr (x, e) ↦ elim (Option-cases (find p ys)) [
    | inl f ↦
        let (m, h) = find_sound p xs e in
        absurd (cc (find-none p f (Memᴰ-of_perm (Permᴰ.symm perm) m), h))
    | inr (y, f) ↦
        let (m, h) = find_sound p xs e in
        let (n, k) = find_sound p ys f in e ∙ ap some (one x y m (Memᴰ-of_perm perm n) h k) ∙ sym f
  ]
]

module _ {b c : Board} (perm : Permᴰ b.objects c.objects) (agree : IdsAgree b.objects) where
  pub get-perm : (id : String) → get b id ≡ get c id
  unfolding get
  get-perm id =
      find-perm (λ e. e.id == id) perm
        (λ x y m n h k. agree x y m n ((eq_iff x.id id).0 h ∙ sym ((eq_iff y.id id).0 k)))

  pub manifest-perm : (task : String) → manifest b task ≡ manifest c task
  unfolding manifest
  manifest-perm task = rw (get-perm task, manifest)

  module _ {P : Type 0} (cast : Envelope Payload → Option (Envelope P)) (keeps : KeepsId cast) where
    cast-agree :
        (p : Envelope P → Bool) (x y : Envelope P)
        → Memᴰ x (select p (of_type cast b))
        → Memᴰ y (select p (of_type cast b))
        → x.id ≡ y.id
        → x ≡ y
    cast-agree p x y m n e =
        let (x', mx, hx) = Memᴰ-filter_map (λ x. when (p x) x) _ m in
        let (y', my, hy) = Memᴰ-filter_map (λ x. when (p x) x) _ n in
        let (u, mu, hu) = Memᴰ-filter_map cast _ mx in
        let (v, mv, hv) = Memᴰ-filter_map cast _ my in
        let ex : x' ≡ x = (when-eq-some (p x') x' hx).1 in
        let ey : y' ≡ y = (when-eq-some (p y') y' hy).1 in
        let same : u ≡ v =
          agree u v mu mv (
            sym (keeps u x' hu)
            ∙ ap (λ z. z.id) ex
            ∙ e
            ∙ ap (λ z. z.id) (sym ey)
            ∙ keeps v y' hv) in
        eq_of_some (ap some (sym ex) ∙ sym hu ∙ ap cast same ∙ hv ∙ ap some ey)

    pub view-perm :
        (before : Envelope P → Envelope P → Bool)
        → IsStrictOrder before
        → ((x y : Envelope P) → (x.id ≡ y.id) ⊎ (before x y ≡ true) ⊎ (before y x ≡ true))
        → (p : Envelope P → Bool)
        → sort before (select p (of_type cast b)) ≡ sort before (select p (of_type cast c))
    view-perm before order apart p =
        sort-perm before order (Permᴰ.filter_map (λ x. when (p x) x) (Permᴰ.filter_map cast perm))
          (λ x y m n. elim (apart x y) [ inl e ↦ inl (cast-agree p x y m n e) | inr d ↦ inr d ])

keeps_lease : KeepsId as_lease
unfolding as_lease
keeps_lease e x h = ground arith

keeps_result : KeepsId as_result
unfolding as_result
keeps_result e x h = ground arith

keeps_attest : KeepsId as_attest
unfolding as_attest
keeps_attest e x h = ground arith

keeps_finalize : KeepsId as_finalize
unfolding as_finalize
keeps_finalize e x h = ground arith

id_lt-IsStrictOrder : {P : Type 0} → IsStrictOrder (id_lt {P = P})
id_lt-IsStrictOrder = record {
  asym = λ x y. str_lt-IsStrictOrder.asym x.id y.id;
  trans = λ x y z. str_lt-IsStrictOrder.trans x.id y.id z.id;
  weak = λ x y z. str_lt-IsStrictOrder.weak x.id y.id z.id;
}

id_lt_cases :
    {P : Type 0} (x y : Envelope P) → (x.id ≡ y.id) ⊎ (id_lt x y ≡ true) ⊎ (id_lt y x ≡ true)
id_lt_cases x y = str_lt_cases x.id y.id

module _ {b c : Board} (perm : Permᴰ b.objects c.objects) (agree : IdsAgree b.objects) where
  pub leases-perm : (task : String) → leases b task ≡ leases c task
  unfolding leases
  leases-perm task = elim (Option-cases (manifest b task)) [
    | inl e ↦ ground (arith, manifest-perm perm agree task)
    | inr (m, e) ↦
        let same =
          view-perm perm agree as_lease keeps_lease epoch_rank (by_rank-IsStrictOrder _ _)
            (by_rank_cases _ _) (is_lease_of m task) in
        ground (arith, manifest-perm perm agree task)
  ]

  pub results-perm : (task : String) → results b task ≡ results c task
  unfolding results
  results-perm task = elim (Option-cases (manifest b task)) [
    | inl e ↦ ground (arith, manifest-perm perm agree task)
    | inr (m, e) ↦
        let ls = select is_fetcher (leases b task) in
        let same =
          view-perm perm agree as_result keeps_result (by_rank (epoch_of ls) (λ r. r.id))
            (by_rank-IsStrictOrder _ _) (by_rank_cases _ _) (is_result_of m ls task) in
        ground (arith, manifest-perm perm agree task, leases-perm task)
  ]

  pub finalizes-perm : (task : String) → finalizes b task ≡ finalizes c task
  unfolding finalizes
  finalizes-perm task = elim (Option-cases (manifest b task)) [
    | inl e ↦ ground (arith, manifest-perm perm agree task)
    | inr (m, e) ↦
        let same =
          view-perm perm agree as_finalize keeps_finalize (by_rank (λ f. f.ts) (λ f. f.id))
            (by_rank-IsStrictOrder _ _) (by_rank_cases _ _) (is_finalize_of m task) in
        ground (arith, manifest-perm perm agree task)
  ]

  pub attests-perm : (task result_id : String) → attests b task result_id ≡ attests c task result_id
  unfolding attests
  attests-perm task result_id = elim (Option-cases (get b result_id)) [
    | inl e ↦ ground (arith, get-perm perm agree result_id)
    | inr (r, e) ↦
        let same =
          view-perm perm agree as_attest keeps_attest id_lt id_lt-IsStrictOrder id_lt_cases
            (is_attest_of task result_id) in
        ground (arith, get-perm perm agree result_id, leases-perm task)
  ]

  pub tally-perm : (task result_id : String) → tally b task result_id ≡ tally c task result_id
  unfolding tally content_hash_of
  tally-perm task result_id =
      ground (arith, attests-perm task result_id, get-perm perm agree result_id)

  accepts-perm :
      (task : String) (need : ℕ) (id : String) → accepts b task need id ≡ accepts c task need id
  unfolding accepts
  accepts-perm task need id = ground (arith, tally-perm task id)

  accepted_as-perm : (id : String) (t : Tally) → accepted_as b id t ≡ accepted_as c id t
  unfolding accepted_as
  accepted_as-perm id t = ground (arith, get-perm perm agree id)

  pin-perm :
      (task : String) (need : ℕ) (rs : List (Envelope Result))
      → accepted_pin b task need rs ≡ accepted_pin c task need rs
  pin-perm task need rs = fun_ext λ f. elim (Option-cases (pinned rs f)) [
    | inl e ↦ ground arith
    | inr (id, e) ↦ elim (Option-cases (accepts b task need id)) [
      | inl g ↦ ground (arith, accepts-perm task need id)
      | inr (t, g) ↦ ground (arith, accepts-perm task need id, accepted_as-perm id t)
    ]
  ]

  accepted_result-perm :
      (task : String) (need : ℕ) → accepted_result b task need ≡ accepted_result c task need
  accepted_result-perm task need = fun_ext λ r. elim (Option-cases (accepts b task need r.id)) [
    | inl g ↦ ground (arith, accepts-perm task need r.id)
    | inr (t, g) ↦ ground (arith, accepts-perm task need r.id, accepted_as-perm r.id t)
  ]

  rejected_result-perm :
      (task : String) (need : ℕ) → rejected_result b task need ≡ rejected_result c task need
  rejected_result-perm task need = fun_ext λ r. ground (arith, tally-perm task r.id)

  decided-perm :
      (task : String) (need : ℕ) (rs : List (Envelope Result))
      → decided b task need rs ≡ decided c task need rs
  unfolding decided
  decided-perm task need rs = λ i.
      elim (find_map (pin-perm task need rs i) (finalizes-perm task i)) [
        | some ev ↦ some ev
        | none ↦ elim (find_map (accepted_result-perm task need i) rs) [
          | some ev ↦ some ev
          | none ↦ find_map (rejected_result-perm task need i) rs
        ]
      ]

  pending-perm :
      (task : String) (m : Manifest) (rs : List (Envelope Result)) (now : ℕ)
      → pending b task m rs now ≡ pending c task m rs now
  unfolding pending
  pending-perm task m [] now = ground (arith, leases-perm task)
  pending-perm task m (r ∷ rs) now = ground arith

  -- Two boards that hold the same envelopes, in any two orders, give every task the same verdict,
  -- where an id names one envelope.
  pub evaluate-perm : (task : String) (now : ℕ) → evaluate b task now ≡ evaluate c task now
  unfolding evaluate
  evaluate-perm task now = elim (Option-cases (manifest b task)) [
    | inl e ↦ ground (arith, manifest-perm perm agree task)
    | inr (m, e) ↦ ground (
      arith,
      manifest-perm perm agree task,
      results-perm task,
      decided-perm task m.payload.min_verifiers (results b task),
      pending-perm task m.payload (results b task) now,
    )
  ]
