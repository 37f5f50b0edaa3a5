-- ===== src/Sovereign/Ledger.antt =====
-- src/sovereign/rewards.ts: the ledger of accruals, its file, and the payout simulator.
pub mod Sound
pub mod Again
pub mod Restart
pub mod Totals
use gstdbot.Common.{
  ℕ, ◌+◌, ltb, String, ◌==◌, Bool, true, false, not, ◌&&◌, if◌then◌else◌, Option, none, some, List,
  [], ◌∷◌, ◌++◌, map, length, any, select, sort, str_lt, JsonLines, read, append_json,
}
use gstdbot.Sovereign.Envelope.{Funding}
use gstdbot.Sovereign.Crypto.{Primitives}
use gstdbot.Sovereign.Board.{Board}
use gstdbot.Sovereign.Rewards.{RewardParams, Accrual, PayoutState, compute_accruals}

-- The file, with an accrual on each line.
abbrev pub File : Type 0
File = JsonLines Accrual

unfoldable pub append_line : Accrual → File → File
append_line a f = append_json a f

-- What the ledger holds in memory: the entries in the order of the `Map`.
pub record Books : Type 0 where
  pub entries : List Accrual
  pub task_settled : List String
  pub subsidy_spent : ℕ

pub record Ledger : Type 0 where
  pub books : Books
  pub file : Option File
  pub params : RewardParams

-- `Map.set`: an id that is held keeps its place.
unfoldable pub set_entry : Accrual → List Accrual → List Accrual
set_entry a [] = a ∷ []
set_entry a (e ∷ l) = if e.accrual_id == a.accrual_id then a ∷ l else e ∷ set_entry a l

abbrev pub subsidy_of : Accrual → ℕ
subsidy_of a = elim a.funding [ Funding.subsidized ↦ a.amount_nano | Funding.commercial ↦ 0 ]

unfoldable pub load : Accrual → Books → Books
load a b = record {
  entries = set_entry a b.entries;
  task_settled = b.task_settled ++ a.task_id ∷ [];
  subsidy_spent = b.subsidy_spent + subsidy_of a;
}

abbrev pub no_books : Books
no_books = record { entries = []; task_settled = []; subsidy_spent = 0 }

unfoldable pub load_all : List Accrual → Books → Books
load_all [] b = b
load_all (a ∷ l) b = load_all l (load a b)

-- The constructor: the ledger of a file, or of none.
unfoldable pub open_ledger : Option File → RewardParams → Ledger
open_ledger file params = record {
  books = elim file [ none ↦ no_books | some f ↦ load_all (read f) no_books ];
  file = file;
  params = params;
}

pub data SkipReason : Type 0 where
  duplicate_accrual other_result budget_exhausted : SkipReason

abbrev pub holds : List Accrual → String → Bool
holds l id = any (λ (e : Accrual). e.accrual_id == id) l

abbrev pub settled : Books → String → Bool
settled b task = any (λ t. t == task) b.task_settled

abbrev pub holds_result : List Accrual → Accrual → Bool
holds_result l a = any (λ (e : Accrual). (e.task_id == a.task_id) && (e.result_id == a.result_id)) l

abbrev pub is_subsidized : Accrual → Bool
is_subsidized a = elim a.funding [ Funding.subsidized ↦ true | Funding.commercial ↦ false ]

-- Why `apply` skips an accrual, if it does.
unfoldable pub refusal : ℕ → Books → Accrual → Option SkipReason
refusal budget b a =
    if holds b.entries a.accrual_id
    then some duplicate_accrual
    else if settled b a.task_id && not (holds_result b.entries a)
    then some other_result
    else if is_subsidized a && ltb budget (b.subsidy_spent + a.amount_nano)
    then some budget_exhausted
    else none

pub record ApplyResult : Type 0 where
  pub applied : List Accrual
  pub skipped : List (String × SkipReason)

abbrev pub book : Accrual → Ledger → Ledger
book a l = record {
  books = load a l.books;
  file = elim l.file [ none ↦ none | some f ↦ some (append_line a f) ];
  params = l.params;
}

unfoldable pub apply : Ledger → List Accrual → Ledger × ApplyResult
apply l [] = (l, record { applied = []; skipped = [] })
apply l (a ∷ rest) = elim (refusal l.params.subsidy_budget_nano l.books a) [
  | some reason ↦
      let (l', out) = apply l rest in
      (l', record { applied = out.applied; skipped = (a.accrual_id, reason) ∷ out.skipped })
  | none ↦
      let (l', out) = apply (book a l) rest in
      (l', record { applied = a ∷ out.applied; skipped = out.skipped })
]

abbrev pub accrue_task : Primitives → Ledger → String → Board → ℕ → Ledger × ApplyResult
accrue_task prim l task b now = apply l (compute_accruals prim task l.params b now)

abbrev pub list_entries : Ledger → List Accrual
list_entries l = sort (λ (a b : Accrual). str_lt a.accrual_id b.accrual_id) l.books.entries

unfoldable pub sum_of : List Accrual → ℕ
sum_of [] = 0
sum_of (a ∷ l) = a.amount_nano + sum_of l

abbrev pub total_for : Ledger → String → ℕ
total_for l node = sum_of (select (λ (a : Accrual). a.node == node) (list_entries l))

abbrev is_accrued : Accrual → Bool
is_accrued a = elim a.state [ PayoutState.accrued ↦ true | _ ↦ false ]

-- `perNode[node] = (perNode[node] ?? 0n) + amount`, on the object's fields in order.
unfoldable pub add_to : String → ℕ → List (String × ℕ) → List (String × ℕ)
add_to node amount [] = (node, amount) ∷ []
add_to node amount (p ∷ l) =
    if p.0 == node then (p.0, p.1 + amount) ∷ l else p ∷ add_to node amount l

unfoldable pub pay_all : List Accrual → List (String × ℕ) → List (String × ℕ)
pay_all [] acc = acc
pay_all (a ∷ l) acc = pay_all l (if is_accrued a then add_to a.node a.amount_nano acc else acc)

pub record Payout : Type 0 where
  pub per_node : List (String × ℕ)
  pub entries : ℕ
  pub real_transfers_executed : ℕ

abbrev pub simulate_payout : Ledger → Payout
simulate_payout l = record {
  per_node = pay_all (list_entries l) [];
  entries = length (list_entries l);
  real_transfers_executed = 0;
}
