-- ===== src/Sovereign/Node/Duties/Due.antt =====
-- src/sovereign/node.ts: the runs that the duties start are due.
use gstdbot.Common.{
  String, ◌==◌, true, false, Option, none, some, List, [], ◌∷◌, any, find, find_sound, arith, ◌≡◌,
  refl, sym, inl, inr, Bool-cases, Memᴰ, Memᴰ-cons, map, ◌++◌, Distinct, subst, ap,
}
use gstdbot.Sovereign.Envelope.{Envelope, Role, Result}
use gstdbot.Sovereign.Board.{Board, task_ids, includes, leases, results}
use gstdbot.Sovereign.Node.Duties.Candidates.{includes-member}
use gstdbot.Sovereign.Node.Duties.Starts.{
  Key, Starts, start_verify, is_open, is_my_verify, is_vote_on, next_verify, verify_each,
  verifier_duty, verify_key, has_role, is_verify_role,
}

-- A verification that a node may start: it has a verification lease of the task, and the result counts,
-- is another node's, and has no vote of this node's on the board.
pub record IsVerifyDue (me : String) (b : Board) (task : String) (r : Envelope Result)
    : Type 0 where
  pub leased : any (is_my_verify me) (leases b task) ≡ true
  pub counted : Memᴰ r (results b task)
  pub other : (r.signer == me) ≡ false
  pub unvoted : any (is_vote_on me r.id) b.objects ≡ false

next_verify-IsVerifyDue :
    (me : String) (b : Board) (inflight : List Key) (task : String) (r : Envelope Result)
    → next_verify me b inflight task ≡ some r
    → IsVerifyDue me b task r × (includes inflight (verify_key me r.id) ≡ false)
unfolding next_verify is_open
next_verify-IsVerifyDue me b inflight task r h =
    elim (Bool-cases (any (is_my_verify me) (leases b task))) [
      | inr e ↦ absurd (ground (arith, h, e))
      | inl e ↦
          let found : find (is_open me b inflight) (results b task) ≡ some r =
            rw (next_verify, e) at h in
          let (there, passed) = find_sound (is_open me b inflight) (results b task) found in
          (
            record {
              leased = e;
              counted = there;
              other = ground (arith, passed);
              unvoted = ground (arith, passed);
            },
            ground (arith, passed),
          )
    ]

abbrev pub key_of : String → String × Envelope Result → Key
key_of me (task, r) = verify_key me r.id

-- What holds of the verifications that have been started so far.
pub record AreDue (me : String) (b : Board) (before : List Key)
    (s : Starts (String × Envelope Result)) : Type 0 where
  pub due :
      (task : String) (r : Envelope Result) → Memᴰ (task, r) s.started → IsVerifyDue me b task r
  pub keys : s.inflight ≡ map (key_of me) s.started ++ before
  pub once : Distinct before → Distinct s.inflight

module _ (me : String) (b : Board) (before : List Key) where
  start_verify-AreDue :
      (task : String) (s : Starts (String × Envelope Result)) (r : Option (Envelope Result))
      → next_verify me b s.inflight task ≡ r
      → AreDue me b before s
      → AreDue me b before (start_verify me task r s)
  start_verify-AreDue task s none e d = d
  start_verify-AreDue task s (some r) e d = record {
    due = λ task' r' m. elim (Memᴰ-cons m) [
      | inl same ↦
          subst (λ (p : String × Envelope Result). IsVerifyDue me b p.0 p.1) (sym same)
            (next_verify-IsVerifyDue me b s.inflight task r e).0
      | inr k ↦ d.due task' r' k
    ];
    keys = ap (λ l. verify_key me r.id ∷ l) d.keys;
    once = λ distinct. (
      includes-member s.inflight (verify_key me r.id)
          (next_verify-IsVerifyDue me b s.inflight task r e).1,
      d.once distinct,
    );
  }

  verify_each-AreDue :
      (tasks : List String) (s : Starts (String × Envelope Result))
      → AreDue me b before s
      → AreDue me b before (verify_each me b tasks s)
  unfolding verify_each
  verify_each-AreDue [] s d = d
  verify_each-AreDue (task ∷ tasks) s d =
      verify_each-AreDue tasks _ (start_verify-AreDue task s _ refl d)

-- The verifications that a node starts are due: it has a verification lease of the task, the result
-- counts for the task and is another node's, and no vote of this node's on it is on the board. What is
-- in flight afterwards is what was, and one key for each of them; no key comes twice if none did.
pub verifier_duty-AreDue :
    (me : String) (roles : List Role) (b : Board) (inflight : List Key)
    → AreDue me b inflight (verifier_duty me roles b inflight)
unfolding verifier_duty
verifier_duty-AreDue me roles b inflight =
    let idle : Starts (String × Envelope Result) = record { started = []; inflight = inflight } in
    let none_yet : AreDue me b inflight idle = record {
      due = λ task r m. elim m [ ];
      keys = refl;
      once = λ d. d;
    } in
    elim (Bool-cases (has_role is_verify_role roles)) [
      | inl e ↦ rw e (verify_each-AreDue me b inflight (task_ids b) idle none_yet)
      | inr e ↦ rw e none_yet
    ]
