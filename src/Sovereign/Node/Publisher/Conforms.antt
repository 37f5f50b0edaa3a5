-- ===== src/Sovereign/Node/Publisher/Conforms.antt =====
-- src/sovereign/node.ts: what a coordinator may do, as relations, and `publisherDuty` keeps to it.
use gstdbot.Common.{ℕ, String, true, false, Option, none, some, List, [], ◌∷◌, head?, ◌≡◌, ◌≢◌, ◌⊎◌}
use gstdbot.Sovereign.Envelope.{Envelope, Manifest, Lease, Finalize, Result, Decision}
use gstdbot.Sovereign.Crypto.{Primitives}
use gstdbot.Sovereign.Signing.{NodeIdentity}
use gstdbot.Sovereign.Board.{Board, manifest, finalizes, results, evaluate, TaskStatus}
use gstdbot.Sovereign.Node.Duties.{coordinates}
use gstdbot.Sovereign.Node.Duties.Assigns.{IsFetchLease}
use gstdbot.Sovereign.Node.Duties.Verifies.{AreVerifyLeases}
use gstdbot.Sovereign.Node.Sends.{Sending}
use gstdbot.Sovereign.Node.Publisher.{emit_lease, emit_leases, emit_finalize}

module _ (prim : Primitives) (hostname : String → Option String) (identity : NodeIdentity)
    (clock : ℕ → ℕ) (nonces : ℕ → String) (now : ℕ) where
  -- A coordinator's decision: accepted or rejected as the board has it, where no decision counts yet.
  pub record MayFinalize (b : Board) (task : String) (f : Finalize) : Type 0 where
    pub of_task : f.task_id ≡ task
    pub verdict :
        (((evaluate b task now).status ≡ TaskStatus.accepted) × (f.decision ≡ Decision.accepted))
        ⊎ (((evaluate b task now).status ≡ TaskStatus.rejected) × (f.decision ≡ Decision.rejected))
    pub result : f.result_id ≡ (evaluate b task now).result_id
    pub first : finalizes b task ≡ []

  -- A task that is open: no verdict, and not expired.
  abbrev pub IsOpen : TaskStatus → Type 0
  IsOpen s =
      (s ≡ TaskStatus.unassigned) ⊎ (s ≡ TaskStatus.leased) ⊎ (s ≡ TaskStatus.awaiting_verification)

  -- Why nothing is sent for a task.
  pub data Rests (b : Board) (task : String) : Type 0 where
    unknown : manifest b task ≡ none → Rests b task
    not_mine : coordinates identity.node_id b now task ≡ false → Rests b task
    decided : finalizes b task ≢ [] → Rests b task
    over : (evaluate b task now).status ≡ TaskStatus.expired → Rests b task

  pub data Fetches (task : String) (m : Envelope Manifest) (s : Sending) : Sending → Type 0 where
    no_fetch : Fetches task m s s
    one_fetch :
        (l : Lease)
        → IsFetchLease identity.node_id s.objects.board now task m l
        → Fetches task m s (emit_lease prim hostname identity clock nonces l s)

  pub data Verifies (task : String) (m : Envelope Manifest) (s : Sending) : Sending → Type 0 where
    no_verify : Verifies task m s s
    some_verify :
        (first : Envelope Result) (ls : List Lease)
        → head? (results s.objects.board task) ≡ some first
        → AreVerifyLeases identity.node_id s.objects.board now task m first ls
        → Verifies task m s (emit_leases prim hostname identity clock nonces ls s)

  pub data TaskRun (task : String) (s : Sending) : Sending → Type 0 where
    nothing_sent : Rests s.objects.board task → TaskRun task s s
    finalized :
        (f : Finalize)
        → coordinates identity.node_id s.objects.board now task ≡ true
        → MayFinalize s.objects.board task f
        → TaskRun task s (emit_finalize prim hostname identity clock nonces f s)
    leased :
        (m : Envelope Manifest) {s1 s2 : Sending}
        → manifest s.objects.board task ≡ some m
        → coordinates identity.node_id s.objects.board now task ≡ true
        → IsOpen (evaluate s.objects.board task now).status
        → Fetches task m s s1
        → Verifies task m s1 s2
        → TaskRun task s s2

  pub data Runs : List String → Sending → Sending → Type 0 where
    done : {s : Sending} → Runs [] s s
    next :
        {task : String} {tasks : List String} {s s1 s2 : Sending}
        → TaskRun task s s1
        → Runs tasks s1 s2
        → Runs (task ∷ tasks) s s2
