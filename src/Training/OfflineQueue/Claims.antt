-- ===== src/Training/OfflineQueue/Claims.antt =====
-- src/training/offline-queue.ts: what a dequeue hands out, and what it leaves.
use gstdbot.Common.{
  ◌==◌, eq_iff, ℕ, suc, String, true, false, Option, none, some, List, [], ◌∷◌, map, length,
  select-cons_true, select-cons_false, filter_map, arith, ◌≡◌, refl, sym, ap, subst, ◌∙◌, ◌⊎◌, inl,
  inr, eq_of_some, Memᴰ, Memᴰ-cons, Bool-cases,
}
use gstdbot.Training.OfflineQueue.{
  TaskStatus, pending, running, done, failed, is_pending, of_kind, QueuedTask, Db, closed, sqlite,
  memory, with_payload, payload_of, matches, claimed, claim, count, handed, dequeue,
}

abbrev ids : List QueuedTask → List String
ids l = map (λ (t : QueuedTask). t.id) l

claimed-matches :
    (now : ℕ) (kind : Option String) (t : QueuedTask) → matches kind (claimed now t) ≡ false
claimed-matches now kind t = refl

claim-none :
    (now : ℕ) (kind : Option String) (l : List QueuedTask)
    → (claim now kind l).0 ≡ none
    → ((claim now kind l).1 ≡ l) × (count kind l ≡ 0)
unfolding claim filter_map
claim-none now kind [] h = (refl, refl)
claim-none now kind (t ∷ l) h = elim (Bool-cases (matches kind t)) [
  | inl e ↦ absurd (ground arith)
  | inr e ↦
      let (same, zero_left) = claim-none now kind l (rw e at h) in
      (rw e (ap (λ k. t ∷ k) same), ap length (select-cons_false (matches kind) t l e) ∙ zero_left)
]

-- The kind that is asked for: none, an empty text, or the task's.
abbrev pub IsAsked : Option String → String → Type 0
IsAsked kind k = (kind ≡ none) ⊎ (kind ≡ some "") ⊎ (kind ≡ some k)

is_pending_sound : (t : QueuedTask) → is_pending t ≡ true → t.status ≡ pending
is_pending_sound t h = of_status t.status refl
  where
    of_status : (s : TaskStatus) → t.status ≡ s → t.status ≡ pending
    of_status pending e = e
    of_status running e = absurd (ground arith)
    of_status done e = absurd (ground arith)
    of_status failed e = absurd (ground arith)

of_kind_sound :
    (kind : Option String) (t : QueuedTask) → of_kind kind t ≡ true → IsAsked kind t.kind
of_kind_sound none t h = inl refl
of_kind_sound (some k) t h = elim (Bool-cases (k == "")) [
  | inl e ↦ inr (inl (ap some ((eq_iff k "").0 e)))
  | inr e ↦ inr (inr (ap some (sym ((eq_iff t.kind k).0 (rw e at h)))))
]

-- What was claimed: the task as it was, what changed of it, and that its place alone changed.
pub record IsClaim (now : ℕ) (kind : Option String) (l l' : List QueuedTask) (t : QueuedTask)
    : Type 0 where
  pub before : QueuedTask
  pub held : Memᴰ before l
  pub waited : before.status ≡ pending
  pub asked : IsAsked kind before.kind
  pub runs : t.status ≡ running
  pub counted : t.attempts ≡ suc before.attempts
  pub dated : t.attempted_at ≡ some now
  pub same_id : t.id ≡ before.id
  pub same_kind : t.kind ≡ before.kind
  pub same_payload : t.payload ≡ before.payload
  pub same_priority : t.priority ≡ before.priority
  pub same_created_at : t.created_at ≡ before.created_at
  pub same_result : t.result ≡ before.result
  pub holds : Memᴰ t l'
  pub same_ids : map (λ (t : QueuedTask). t.id) l' ≡ map (λ (t : QueuedTask). t.id) l
  pub fewer : count kind l ≡ suc (count kind l')
  pub others : (x : QueuedTask) → Memᴰ x l' → (x ≡ t) ⊎ Memᴰ x l

claim-IsClaim :
    (now : ℕ) (kind : Option String) (l : List QueuedTask) {t : QueuedTask}
    → (claim now kind l).0 ≡ some t
    → IsClaim now kind l (claim now kind l).1 t
unfolding claim filter_map
claim-IsClaim now kind [] h = absurd (ground arith)
claim-IsClaim now kind (x ∷ l) {t} h = elim (Bool-cases (matches kind x)) [
  | inl e ↦
      let made : claimed now x ≡ t = eq_of_some (rw e at h) in
      rw e (record {
        before = x;
        held = Memᴰ.head refl;
        waited = is_pending_sound x (ground arith);
        asked = of_kind_sound kind x (ground arith);
        runs = ap (λ (t : QueuedTask). t.status) (sym made);
        counted = ap (λ (t : QueuedTask). t.attempts) (sym made);
        dated = ap (λ (t : QueuedTask). t.attempted_at) (sym made);
        same_id = ap (λ (t : QueuedTask). t.id) (sym made);
        same_kind = ap (λ (t : QueuedTask). t.kind) (sym made);
        same_payload = ap (λ (t : QueuedTask). t.payload) (sym made);
        same_priority = ap (λ (t : QueuedTask). t.priority) (sym made);
        same_created_at = ap (λ (t : QueuedTask). t.created_at) (sym made);
        same_result = ap (λ (t : QueuedTask). t.result) (sym made);
        holds = Memᴰ.head (sym made);
        same_ids = refl;
        fewer = ap length (select-cons_true (matches kind) x l e);
        others = λ y m. elim (Memᴰ-cons m) [ inl p ↦ inl (p ∙ made) | inr k ↦ inr (Memᴰ.tail k) ];
      })
  | inr e ↦
      let w = claim-IsClaim now kind l {t = t} (rw e at h) in
      rw e (record {
        before = w.before;
        held = Memᴰ.tail w.held;
        waited = w.waited;
        asked = w.asked;
        runs = w.runs;
        counted = w.counted;
        dated = w.dated;
        same_id = w.same_id;
        same_kind = w.same_kind;
        same_payload = w.same_payload;
        same_priority = w.same_priority;
        same_created_at = w.same_created_at;
        same_result = w.same_result;
        holds = Memᴰ.tail w.holds;
        same_ids = ap (λ k. x.id ∷ k) w.same_ids;
        fewer =
            ap length (select-cons_false (matches kind) x l e)
            ∙ w.fewer
            ∙ ap (λ k. suc (length k))
                (sym (select-cons_false (matches kind) x (claim now kind l).1 e));
        others = λ y m. elim (Memᴰ-cons m) [
          | inl p ↦ inr (Memᴰ.head p)
          | inr k ↦ elim (w.others y k) [ inl q ↦ inl q | inr j ↦ inr (Memᴰ.tail j) ]
        ];
      })
]

tasks_of : Db → List QueuedTask
tasks_of closed = []
tasks_of sqlite = []
tasks_of (memory l) = l

module _ {P : Type 0} (json_parse : String → Option P) where
  with_payload_sound :
      (x : QueuedTask) (o : Option P) {t : QueuedTask} {p : P}
      → with_payload json_parse x o ≡ some (t, p)
      → x ≡ t
  with_payload_sound x none h = absurd (ground arith)
  with_payload_sound x (some q) h = ap (λ r. r.0) (eq_of_some h)

  handed_sound :
      (o : Option QueuedTask) {t : QueuedTask} {p : P}
      → handed json_parse o ≡ some (t, p)
      → o ≡ some t
  handed_sound none h = absurd (ground arith)
  handed_sound (some x) {t} {p} h = ap some (with_payload_sound x (payload_of json_parse x) h)

  -- A task that is handed out was pending and of the kind asked for; it is then running, with one more
  -- attempt and the time of it, and else as it was. One task fewer of that kind is pending, the ids are
  -- what they were, and no other task has changed.
  pub dequeue-IsClaim :
      (now : ℕ) (kind : Option String) (l l' : List QueuedTask) (t : QueuedTask) (p : P)
      → dequeue json_parse now kind (memory l) ≡ (some (t, p), memory l')
      → IsClaim now kind l l' t
  unfolding claim tasks_of
  dequeue-IsClaim now kind l l' t p h =
      let got : (claim now kind l).0 ≡ some t =
        handed_sound (claim now kind l).0 (ap (λ r. r.0) h) in
      let left : (claim now kind l).1 ≡ l' = ap tasks_of (ap (λ r. r.1) h) in
      subst (λ k. IsClaim now kind l k t) left (claim-IsClaim now kind l got)
