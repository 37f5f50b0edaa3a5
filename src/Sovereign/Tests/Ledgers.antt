-- ===== src/Sovereign/Tests/Ledgers.antt =====
-- src/sovereign/rewards.ts: the theorems on the ledger, applied to concrete accruals.
use gstdbot.Common.{
  ℕ, String, ◌≡◌, refl, none, some, List, [], ◌∷◌, Memᴰ, Memᴰ-singleton, filter_map, arith, whole,
  part, read, read_lines,
}
use gstdbot.Sovereign.Envelope.{Funding}
use gstdbot.Sovereign.Rewards.{RewardParams, default_params, Accrual, execute, accrued}
use gstdbot.Sovereign.Ledger.{
  File, no_books, Ledger, open_ledger, apply, refusal, load, load_all, set_entry,
}
use gstdbot.Sovereign.Ledger.Sound.{IsSound, subsidies, apply-IsSound}
use gstdbot.Sovereign.Ledger.Again.{apply-again}
use gstdbot.Sovereign.Ledger.Restart.{open_ledger-apply, open_ledger-apply_unended}

abbrev params : RewardParams
params = record default_params { subsidy_budget_nano = 1000 }

abbrev due : String → String → String → ℕ → Accrual
due id result node amount = record {
  accrual_id = id;
  task_id = "t";
  result_id = result;
  node = node;
  role = execute;
  funding = Funding.subsidized;
  declared_budget_nano = 1000;
  amount_nano = amount;
  state = accrued;
}

-- Two accruals that pass, one for another result of the task, and one above the budget.
abbrev dues : List Accrual
dues = due "a" "r" "w" 600 ∷ due "b" "r" "v" 300 ∷ due "c" "s" "x" 1 ∷ due "d" "r" "y" 200 ∷ []

abbrev fresh : Ledger
fresh = open_ledger none params

fresh-IsSound : IsSound 1000 fresh.books
unfolding open_ledger subsidies
fresh-IsSound = record {
  distinct = tt;
  one_result = λ x y m. elim m [ ];
  settles = λ a m. elim m [ ];
  spent = refl;
  within = omega arith;
}

dues-applied : (apply fresh dues).1.applied ≡ due "a" "r" "w" 600 ∷ due "b" "r" "v" 300 ∷ []
unfolding apply open_ledger refusal load set_entry
dues-applied = refl

apply-IsSound_example : IsSound 1000 (apply fresh dues).0.books
unfolding open_ledger
apply-IsSound_example = apply-IsSound fresh dues fresh-IsSound

apply-again_example :
    ((apply (apply fresh dues).0 (due "b" "r" "v" 300 ∷ [])).0 ≡ (apply fresh dues).0)
    × ((apply (apply fresh dues).0 (due "b" "r" "v" 300 ∷ [])).1.applied ≡ [])
apply-again_example =
    apply-again fresh dues (due "b" "r" "v" 300 ∷ [])
      (λ a m. Memᴰ.tail (Memᴰ.head (Memᴰ-singleton m)))

abbrev saved : File
saved = record { ended = (whole (due "a" "r" "w" 600) ∷ []) ∷ (part ∷ []) ∷ []; tail = [] }

open_ledger-apply_example :
    (open_ledger (apply (open_ledger (some saved) params) dues).0.file params).books
    ≡ (apply (open_ledger (some saved) params) dues).0.books
open_ledger-apply_example = open_ledger-apply saved params dues refl

-- A crash lost the newline of the second line.
abbrev unended : File
unended = record {
  ended = (whole (due "a" "r" "w" 600) ∷ []) ∷ [];
  tail = whole (due "b" "r" "v" 100) ∷ [];
}

unended-admits : refusal 1000 (open_ledger (some unended) params).books (due "c" "r" "u" 300) ≡ none
unfolding open_ledger refusal load load_all set_entry read filter_map
unended-admits = refl

open_ledger-apply_unended_example :
    ((apply (open_ledger (some unended) params) (due "c" "r" "u" 300 ∷ [])).1.applied
      ≡ due "c" "r" "u" 300 ∷ [])
    × ((open_ledger
          (apply (open_ledger (some unended) params) (due "c" "r" "u" 300 ∷ [])).0.file
          params).books
        ≡ load_all (read_lines unended.ended) no_books)
open_ledger-apply_unended_example =
    open_ledger-apply_unended unended params (due "c" "r" "u" 300) (whole (due "b" "r" "v" 100)) []
      refl unended-admits
