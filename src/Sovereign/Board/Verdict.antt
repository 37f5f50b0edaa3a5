-- ===== src/Sovereign/Board/Verdict.antt =====
-- src/sovereign/board.ts: the tally of a result, and `evaluate`.
use gstdbot.Common.{
  ℕ, ltb, leb, String, ◌==◌, Bool, true, false, ◌&&◌, if◌then◌else◌, Option, none, some, List, [],
  ◌∷◌, map, length, any, select, find_map, sort, str_lt,
}
use gstdbot.Sovereign.Envelope.{
  Envelope, Manifest, Result, Attest, Verdict, Finalize, Decision, as_result,
}
use gstdbot.Sovereign.Board.Store.{Board, get, manifest}
use gstdbot.Sovereign.Board.Views.{leases, results, attests, finalizes, is_fetcher}

pub data TaskStatus : Type 0 where
  unassigned leased awaiting_verification accepted rejected expired : TaskStatus

-- One constructor for each text that `evaluate` gives as a reason.
pub data Reason : Type 0 where
  manifest_unknown deadline_passed waiting_for_verifiers executor_leased no_executor : Reason
  not_reproduced : Reason
  reproduced_by : ℕ → Reason

pub record Evaluation : Type 0 where
  pub status : TaskStatus
  pub reason : Reason
  pub result_id : Option String
  pub worker : Option String
  pub match_verifiers : List String
  pub mismatch_verifiers : List String
  pub inconclusive_verifiers : List String

-- `payload.version.contentHash` of the object with this id, where it is a result.
unfoldable pub content_hash_of : Board → String → Option String
content_hash_of b result_id = elim (get b result_id) [
  | none ↦ none
  | some e ↦ elim (as_result e) [ none ↦ none | some r ↦ some r.payload.version.content_hash ]
]

abbrev pub observes : Option String → Option String → Bool
observes none h = false
observes (some s) none = false
observes (some s) (some t) = s == t

abbrev pub votes_match : Option String → Envelope Attest → Bool
votes_match hash a = elim a.payload.verdict [
  | Verdict.match ↦ observes a.payload.observed_hash hash
  | _ ↦ false
]

abbrev pub votes_mismatch : Envelope Attest → Bool
votes_mismatch a = elim a.payload.verdict [ Verdict.mismatch ↦ true | _ ↦ false ]

abbrev pub votes_inconclusive : Envelope Attest → Bool
votes_inconclusive a = elim a.payload.verdict [ Verdict.inconclusive ↦ true | _ ↦ false ]

pub record Tally : Type 0 where
  pub match : List String
  pub mismatch : List String
  pub inconclusive : List String

abbrev pub signers : List (Envelope Attest) → List String
signers l = map (λ (a : Envelope Attest). a.signer) l

unfoldable pub tally : Board → String → String → Tally
tally b task result_id =
    let votes = attests b task result_id in
    record {
      match = signers (select (votes_match (content_hash_of b result_id)) votes);
      mismatch = signers (select votes_mismatch votes);
      inconclusive = signers (select votes_inconclusive votes);
    }

-- The `accepts` of `evaluate`.
abbrev pub is_accepting : ℕ → Tally → Bool
is_accepting need t = leb need (length t.match) && ltb (length t.mismatch) (length t.match)

abbrev pub is_rejecting : ℕ → Tally → Bool
is_rejecting need t = leb need (length t.mismatch) && ltb (length t.match) (length t.mismatch)

unfoldable pub accepts : Board → String → ℕ → String → Option Tally
accepts b task need result_id =
    let t = tally b task result_id in if is_accepting need t then some t else none

unfoldable pub accepted_as : Board → String → Tally → Evaluation
accepted_as b result_id t = record {
  status = TaskStatus.accepted;
  reason = reproduced_by (length t.match);
  result_id = some result_id;
  worker = elim (get b result_id) [ none ↦ none | some e ↦ some e.signer ];
  match_verifiers = sort str_lt t.match;
  mismatch_verifiers = sort str_lt t.mismatch;
  inconclusive_verifiers = sort str_lt t.inconclusive;
}

abbrev pub undecided : TaskStatus → Reason → Evaluation
undecided status reason = record {
  status = status;
  reason = reason;
  result_id = none;
  worker = none;
  match_verifiers = [];
  mismatch_verifiers = [];
  inconclusive_verifiers = [];
}

-- A pin that names one of the results, and says that it is accepted.
abbrev pub pinned : List (Envelope Result) → Envelope Finalize → Option String
pinned rs f = elim f.payload.decision [
  | Decision.rejected ↦ none
  | Decision.accepted ↦ elim f.payload.result_id [
    | none ↦ none
    | some id ↦ if any (λ r. r.id == id) rs then some id else none
  ]
]

abbrev pub accepted_pin :
    Board → String → ℕ → List (Envelope Result) → Envelope Finalize → Option Evaluation
accepted_pin b task need rs f = elim (pinned rs f) [
  | none ↦ none
  | some id ↦ elim (accepts b task need id) [ none ↦ none | some t ↦ some (accepted_as b id t) ]
]

abbrev pub accepted_result : Board → String → ℕ → Envelope Result → Option Evaluation
accepted_result b task need r = elim (accepts b task need r.id) [
  | none ↦ none
  | some t ↦ some (accepted_as b r.id t)
]

abbrev pub rejected_result : Board → String → ℕ → Envelope Result → Option Evaluation
rejected_result b task need r =
    let t = tally b task r.id in
    if is_rejecting need t
    then some (record {
      status = TaskStatus.rejected;
      reason = not_reproduced;
      result_id = some r.id;
      worker = some r.signer;
      match_verifiers = t.match;
      mismatch_verifiers = t.mismatch;
      inconclusive_verifiers = t.inconclusive;
    })
    else none

unfoldable pub pending : Board → String → Manifest → List (Envelope Result) → ℕ → Evaluation
pending b task m rs now =
    if ltb m.deadline now then undecided expired deadline_passed else elim rs [
      | r ∷ _ ↦ record (undecided awaiting_verification waiting_for_verifiers) {
        result_id = some r.id;
        worker = some r.signer;
      }
      | [] ↦
          if any is_fetcher (leases b task)
          then undecided leased executor_leased
          else undecided unassigned no_executor
    ]

-- The three loops of `evaluate`: the pins, the first accepted result, the first rejected one.
unfoldable pub decided : Board → String → ℕ → List (Envelope Result) → Option Evaluation
decided b task need rs = elim (find_map (accepted_pin b task need rs) (finalizes b task)) [
  | some ev ↦ some ev
  | none ↦ elim (find_map (accepted_result b task need) rs) [
    | some ev ↦ some ev
    | none ↦ find_map (rejected_result b task need) rs
  ]
]

unfoldable pub evaluate : Board → String → ℕ → Evaluation
unfolding decided pending
evaluate b task now = elim (manifest b task) [
  | none ↦ undecided unassigned manifest_unknown
  | some m ↦ elim (decided b task m.payload.min_verifiers (results b task)) [
    | some ev ↦ ev
    | none ↦ pending b task m.payload (results b task) now
  ]
]
