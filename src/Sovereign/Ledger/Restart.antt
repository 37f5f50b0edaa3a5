-- ===== src/Sovereign/Ledger/Restart.antt =====
-- src/sovereign/rewards.ts: a ledger that is opened again from its file.
use gstdbot.Common.{
  Piece, read, read_lines, append_json, read-append_json, read-append_json_tail, none, some, List,
  [], ◌∷◌, ◌++◌, ◌≡◌, refl, ap, inl, inr, Option-cases,
}
use gstdbot.Sovereign.Rewards.{RewardParams, Accrual}
use gstdbot.Sovereign.Ledger.{
  File, append_line, Books, Ledger, load, no_books, load_all, open_ledger, refusal, book, apply,
}
use gstdbot.Sovereign.Ledger.Sound.{apply-skips, apply-admits}

load_all-concat :
    (l : List Accrual) (a : Accrual) (b : Books) → load_all (l ++ a ∷ []) b ≡ load a (load_all l b)
unfolding load_all
load_all-concat [] a b = refl
load_all-concat (x ∷ l) a b = load_all-concat l a (load x b)

-- The ledger holds in memory what its file, which ends with a whole line, gives.
record IsRestorable (l : Ledger) : Type 0 where
  kept : File
  is_file : l.file ≡ some kept
  at_newline : kept.tail ≡ []
  restores : load_all (read kept) no_books ≡ l.books

book-IsRestorable : (l : Ledger) (a : Accrual) → IsRestorable l → IsRestorable (book a l)
unfolding append_line append_json
book-IsRestorable l a r = record {
  kept = append_line a r.kept;
  is_file = rw r.is_file refl;
  at_newline = refl;
  restores =
      rw
        (
          read-append_json a r.kept r.at_newline,
          load_all-concat (read r.kept) a no_books,
          r.restores,
        )
        refl;
}

apply-IsRestorable :
    (l : Ledger) (accruals : List Accrual) → IsRestorable l → IsRestorable (apply l accruals).0
unfolding apply
apply-IsRestorable l [] r = r
apply-IsRestorable l (a ∷ rest) r =
    elim (Option-cases (refusal l.params.subsidy_budget_nano l.books a)) [
      | inl e ↦
          rw ((apply-admits l a rest e).0)
            (apply-IsRestorable (book a l) rest (book-IsRestorable l a r))
      | inr (_, e) ↦ rw ((apply-skips l a rest e).0) (apply-IsRestorable l rest r)
    ]

-- A ledger that is opened from a file that ends with a newline or is empty, and applies accruals, holds
-- in memory what a ledger holds that is opened from the file as it then is.
pub open_ledger-apply :
    (f : File) (params : RewardParams) (accruals : List Accrual)
    → f.tail ≡ []
    → (open_ledger (apply (open_ledger (some f) params) accruals).0.file params).books
      ≡ (apply (open_ledger (some f) params) accruals).0.books
unfolding open_ledger
open_ledger-apply f params accruals whole =
    let r =
      apply-IsRestorable (open_ledger (some f) params) accruals
        (record { kept = f; is_file = refl; at_newline = whole; restores = refl }) in
    rw r.is_file r.restores

-- Where the file does not end with a newline, an accrual that is applied first is reported as applied
-- and then lost: a ledger that is opened from the file as it then is holds what the lines that had
-- ended give, neither the accrual nor what stood after the last newline.
pub open_ledger-apply_unended :
    (f : File) (params : RewardParams) (a : Accrual) (p : Piece Accrual) (ps : List (Piece Accrual))
    → f.tail ≡ p ∷ ps
    → refusal params.subsidy_budget_nano (open_ledger (some f) params).books a ≡ none
    → ((apply (open_ledger (some f) params) (a ∷ [])).1.applied ≡ a ∷ [])
      × ((open_ledger (apply (open_ledger (some f) params) (a ∷ [])).0.file params).books
          ≡ load_all (read_lines f.ended) no_books)
unfolding open_ledger apply append_line
open_ledger-apply_unended f params a p ps unended ok =
    let (after, applied) = apply-admits (open_ledger (some f) params) a [] ok in
    (applied, rw after (ap (λ l. load_all l no_books) (read-append_json_tail a f p ps unended)))
