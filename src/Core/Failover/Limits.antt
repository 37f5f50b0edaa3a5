-- ===== src/Core/Failover/Limits.antt =====
-- src/core/model-failover.ts: the latencies that the records keep.
use gstdbot.Common.{
  ℕ, String, ◌==◌, eq_iff, true, false, Bool, Option, none, some, List, [], ◌∷◌, ◌++◌,
  if◌then◌else◌, find_sound, arith, ◌≡◌, refl, sym, ap, ◌∙◌, inl, inr, Bool-cases, Option-cases,
  latest, push_latest_lem, append_assoc, append-nil,
}
use gstdbot.Core.Failover.{
  ModelRecord, Failover, new_failover, new_record, add_all, listed, lookup, set_model,
  get_or_create, last_latencies, is_available, failed, cooled, preference, order_start,
  add_available, get_failover_order, record_success, record_failure,
}

-- What `executeWithFailover` does with the records: it asks for an order, and records what its calls
-- come to.
pub data Event : Type 0 where
  ordered : ℕ → Option String → Event
  succeeded : ℕ → String → ℕ → Event
  failed_with : ℕ → String → String → Event

abbrev pub step : Event → Failover → Failover
step (ordered now preferred) f = (get_failover_order now f preferred).1
step (succeeded now id latency) f = record_success now f id latency
step (failed_with now id error) f = record_failure now f id error

unfoldable pub run : List Event → Failover → Failover
run [] f = f
run (e ∷ es) f = run es (step e f)

-- The latencies of a model's record, none where there is no record.
abbrev pub latencies_of : Option ModelRecord → List ℕ
latencies_of none = []
latencies_of (some m) = m.latencies

abbrev pub latencies_in : List ModelRecord → String → List ℕ
latencies_in ms id = latencies_of (lookup ms id)

-- The latencies of a model's successes, in their order.
abbrev pub succeeded_in : String → List Event → List ℕ
succeeded_in id [] = []
succeeded_in id (ordered now preferred ∷ es) = succeeded_in id es
succeeded_in id (succeeded now x latency ∷ es) =
    let rest = succeeded_in id es in if x == id then latency ∷ rest else rest
succeeded_in id (failed_with now x error ∷ es) = succeeded_in id es

latencies_of-pick :
    (c : Bool) (m : ModelRecord) (o : Option ModelRecord)
    → latencies_of (elim c [ true ↦ some m | false ↦ o ])
      ≡ (if c then m.latencies else latencies_of o)
latencies_of-pick true m o = refl
latencies_of-pick false m o = refl

module _ (id : String) where
  latencies_in-cons :
      (m : ModelRecord) (ms : List ModelRecord)
      → latencies_in (m ∷ ms) id ≡ (if m.id == id then m.latencies else latencies_in ms id)
  latencies_in-cons m ms = latencies_of-pick (m.id == id) m (lookup ms id)

  latencies_in-set_model :
      (m : ModelRecord) (ms : List ModelRecord)
      → latencies_in (set_model m ms) id ≡ (if m.id == id then m.latencies else latencies_in ms id)
  unfolding set_model
  latencies_in-set_model m [] = latencies_in-cons m []
  latencies_in-set_model m (x ∷ ms) = elim (Bool-cases (x.id == m.id)) [
    | inl e ↦
        let same : (x.id == id) ≡ (m.id == id) = ap (λ s. s == id) ((eq_iff x.id m.id).0 e) in
        rw e (
          latencies_in-cons m ms ∙ elim (Bool-cases (m.id == id)) [
            | inl g ↦ rw g refl
            | inr g ↦ rw g (sym (latencies_in-cons x ms ∙ rw (same ∙ g) refl))
          ])
    | inr e ↦ rw e (
        latencies_in-cons x (set_model m ms) ∙ elim (Bool-cases (x.id == id)) [
          | inl g ↦
              let other : (m.id == id) ≡ false = elim (Bool-cases (m.id == id)) [
                | inl h ↦ absurd (
                    cc
                      ((eq_iff x.id m.id).1 ((eq_iff x.id id).0 g ∙ sym ((eq_iff m.id id).0 h)), e))
                | inr h ↦ h
              ] in
              rw (g, other) (sym (latencies_in-cons x ms ∙ rw g refl))
          | inr g ↦ rw g (
              latencies_in-set_model m ms
              ∙ ap (λ l. if m.id == id then m.latencies else l)
                  (sym (latencies_in-cons x ms ∙ rw g refl)))
        ])
  ]

  latencies_in-append_new :
      (x : String) (ms : List ModelRecord)
      → latencies_in (ms ++ new_record x ∷ []) id ≡ latencies_in ms id
  latencies_in-append_new x [] =
      latencies_in-cons (new_record x) []
      ∙ elim (Bool-cases (x == id)) [ inl e ↦ rw e refl | inr e ↦ rw e refl ]
  latencies_in-append_new x (m ∷ ms) =
      latencies_in-cons m (ms ++ new_record x ∷ [])
      ∙ ap (λ l. if m.id == id then m.latencies else l) (latencies_in-append_new x ms)
      ∙ sym (latencies_in-cons m ms)

  get_or_create-kept :
      (x : String) (ms : List ModelRecord)
      → latencies_in (get_or_create ms x).1 id ≡ latencies_in ms id
  get_or_create-kept x ms = elim (Option-cases (lookup ms x)) [
    | inl e ↦ rw e (latencies_in-append_new x ms)
    | inr (m, e) ↦ rw e refl
  ]

  get_or_create-own :
      (x : String) (ms : List ModelRecord)
      → ((get_or_create ms x).0.id ≡ x) × ((get_or_create ms x).0.latencies ≡ latencies_in ms x)
  get_or_create-own x ms = elim (Option-cases (lookup ms x)) [
    | inl e ↦ rw e (refl, refl)
    | inr (m, e) ↦
        let (_, same) = find_sound (λ (r : ModelRecord). r.id == x) ms e in
        rw e ((eq_iff m.id x).0 same, refl)
  ]

  record_success-latencies :
      (now : ℕ) (f : Failover) (x : String) (latency : ℕ)
      → latencies_in (record_success now f x latency).models id ≡ (
          if x == id
          then last_latencies (latencies_in f.models id ++ latency ∷ [])
          else latencies_in f.models id)
  unfolding record_success
  record_success-latencies now f x latency =
      let (own, held) = get_or_create-own x f.models in
      latencies_in-set_model _ (get_or_create f.models x).1
      ∙ ap
          (λ s.
            if s == id
            then last_latencies ((get_or_create f.models x).0.latencies ++ latency ∷ [])
            else latencies_in (get_or_create f.models x).1 id)
          own
      ∙ elim (Bool-cases (x == id)) [
        | inl e ↦ rw e (
            ap (λ l. last_latencies (l ++ latency ∷ []))
              (held ∙ ap (latencies_in f.models) ((eq_iff x id).0 e)))
        | inr e ↦ rw e (get_or_create-kept x f.models)
      ]

  cooled_lem :
      (now : ℕ) (m : ModelRecord)
      → ((cooled now m).id ≡ m.id) × ((cooled now m).latencies ≡ m.latencies)
  cooled_lem now m = (ground arith, ground arith)

  record_failure-latencies :
      (now : ℕ) (f : Failover) (x error : String)
      → latencies_in (record_failure now f x error).models id ≡ latencies_in f.models id
  unfolding record_failure
  record_failure-latencies now f x error =
      let (own, held) = get_or_create-own x f.models in
      let m = failed now error (get_or_create f.models x).0 in
      let (same, kept) = cooled_lem now m in
      latencies_in-set_model (cooled now m) (get_or_create f.models x).1
      ∙ ap
          (λ s.
            if s == id
            then (cooled now m).latencies
            else latencies_in (get_or_create f.models x).1 id)
          (same ∙ own)
      ∙ elim (Bool-cases (x == id)) [
        | inl e ↦ rw e (kept ∙ held ∙ ap (latencies_in f.models) ((eq_iff x id).0 e))
        | inr e ↦ rw e (get_or_create-kept x f.models)
      ]

  add_available-latencies :
      (now : ℕ) (ids : List String) (ms : List ModelRecord) (order : List String)
      → latencies_in (add_available now ids ms order).1 id ≡ latencies_in ms id
  unfolding add_available
  add_available-latencies now [] ms order = refl
  add_available-latencies now (x ∷ ids) ms order =
      let kept = get_or_create-kept x ms in
      let ms' = (get_or_create ms x).1 in
      elim (Bool-cases (listed order x)) [
        | inl e ↦ rw e (add_available-latencies now ids ms order)
        | inr e ↦ elim (Bool-cases (is_available now (get_or_create ms x).0)) [
          | inl g ↦ rw (e, g) (add_available-latencies now ids ms' (order ++ x ∷ []) ∙ kept)
          | inr g ↦ rw (e, g) (add_available-latencies now ids ms' order ∙ kept)
        ]
      ]

  order_start-latencies :
      (now : ℕ) (ms : List ModelRecord) (o : Option String)
      → latencies_in (order_start now ms o).1 id ≡ latencies_in ms id
  order_start-latencies now ms none = refl
  order_start-latencies now ms (some x) = get_or_create-kept x ms

  get_failover_order-latencies :
      (now : ℕ) (f : Failover) (preferred : Option String)
      → latencies_in (get_failover_order now f preferred).1.models id ≡ latencies_in f.models id
  unfolding get_failover_order
  get_failover_order-latencies now f preferred =
      let (start, ms) = order_start now f.models (preference preferred) in
      add_available-latencies now f.chain ms start
      ∙ order_start-latencies now f.models (preference preferred)

  run_after :
      (es : List Event) (f : Failover) (l : List ℕ)
      → latencies_in f.models id ≡ latest 20 l
      → latencies_in (run es f).models id ≡ latest 20 (l ++ succeeded_in id es)
  unfolding run
  run_after [] f l h = h ∙ ap (latest 20) (sym (append-nil l))
  run_after (ordered now preferred ∷ es) f l h =
      run_after es (get_failover_order now f preferred).1 l
        (get_failover_order-latencies now f preferred ∙ h)
  run_after (failed_with now x error ∷ es) f l h =
      run_after es (record_failure now f x error) l (record_failure-latencies now f x error ∙ h)
  run_after (succeeded now x latency ∷ es) f l h = elim (Bool-cases (x == id)) [
    | inl e ↦
        let grown : latencies_in (record_success now f x latency).models id
            ≡ latest 20 (l ++ latency ∷ []) =
          (record_success-latencies now f x latency ∙ rw e refl)
          ∙ ap (λ k. last_latencies (k ++ latency ∷ [])) h
          ∙ push_latest_lem 20 latency l in
        rw e (
          run_after es (record_success now f x latency) (l ++ latency ∷ []) grown
          ∙ ap (latest 20) (append_assoc l (latency ∷ []) (succeeded_in id es)))
    | inr e ↦
        let same : latencies_in (record_success now f x latency).models id ≡ latest 20 l =
          (record_success-latencies now f x latency ∙ rw e refl) ∙ h in
        rw e (run_after es (record_success now f x latency) l same)
  ]

  add_all-latencies :
      (ids : List String) (ms : List ModelRecord)
      → latencies_in ms id ≡ []
      → latencies_in (add_all ids ms) id ≡ []
  unfolding add_all
  add_all-latencies [] ms h = h
  add_all-latencies (x ∷ ids) ms h = add_all-latencies ids (set_model (new_record x) ms) (
      latencies_in-set_model (new_record x) ms
      ∙ elim (Bool-cases (x == id)) [ inl e ↦ rw e refl | inr e ↦ rw e h ])

-- Whatever orders are asked for and whatever calls succeed or fail, from a new failover on, the record
-- of a model holds the latencies of its last 20 successes, in their order (all where they are fewer).
pub latencies-run :
    (chain : List String) (es : List Event) (id : String)
    → latencies_in (run es (new_failover chain)).models id ≡ latest 20 (succeeded_in id es)
latencies-run chain es id =
    run_after id es (new_failover chain) [] (add_all-latencies id chain [] refl)
