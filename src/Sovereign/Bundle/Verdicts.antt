-- ===== src/Sovereign/Bundle/Verdicts.antt =====
-- src/sovereign/board.ts: the views of a board that is made of a bundle are those of the board it came from.
use gstdbot.Common.{
  String, Bool, true, some, List, [], ◌∷◌, filter_map, select, select_all, select-cons_true, sort,
  insert_by, sort-sorted, sort-IsSorted, IsSorted, ◌≡◌, refl, sym, ap, subst, ◌∙◌, Memᴰ, Memᴰ-sort,
  Memᴰ-select, by_rank, by_rank-IsStrictOrder, str_lt_asym, str_lt_trans, str_lt_weak,
  IsStrictOrder,
}
use gstdbot.Sovereign.Envelope.{
  Envelope, Manifest, Lease, Result, Attest, Finalize, as_lease, as_result, as_attest, as_finalize,
}
use gstdbot.Sovereign.Board.{
  Board, manifest, leases, is_lease_of, epoch_rank, of_type, results, is_result_of, is_fetcher,
  epoch_of, attests, finalizes, is_finalize_of, is_attest_of, is_verifier, id_lt, collect,
}
use gstdbot.Sovereign.Board.Order.{IdsAgree}
use gstdbot.Sovereign.Board.Votes.{collect_again, collect-IsSorted, collect_subset}
use gstdbot.Sovereign.Bundle.Replay.{
  bundled, result_found, bundled-manifest, bundled-result, bundled-leases_of, bundled-attests_of,
  bundled-finalizes_of, bundled-results_of,
}

id_lt-IsStrictOrder : {P : Type 0} → IsStrictOrder (id_lt {P = P})
id_lt-IsStrictOrder = record {
  asym = λ x y. str_lt_asym x.id y.id;
  trans = λ x y z. str_lt_trans x.id y.id z.id;
  weak = λ x y z. str_lt_weak x.id y.id z.id;
}

-- A list that a strict order sorted, of elements that pass a test, is selected and sorted as it is.
again :
    {A : Type 0} (before : A → A → Bool) (p : A → Bool) (l : List A)
    → IsSorted before l
    → ((x : A) → Memᴰ x l → p x ≡ true)
    → sort before (select p l) ≡ l
again before p l sorted passes =
    ap (sort before) (select_all p l passes) ∙ sort-sorted before l sorted

module _ (b : Board) (agree : IdsAgree b.objects) (task : String) (m : Envelope Manifest)
    (known : manifest b task ≡ some m) (r : Envelope Result)
    (counted : Memᴰ r (results b task)) where
  abbrev c : Board
  c = bundled b agree task m known r counted

  epoch_order : IsStrictOrder epoch_rank
  epoch_order = by_rank-IsStrictOrder (λ (l : Envelope Lease). l.payload.epoch) (λ l. l.id)

  abbrev found_leases : List (Envelope Lease)
  found_leases = select (is_lease_of m task) (of_type as_lease b)

  leases_b : leases b task ≡ sort epoch_rank found_leases
  unfolding leases
  leases_b = rw (leases, known) refl

  pub leases_same : leases c task ≡ leases b task
  unfolding leases
  leases_same =
      let shown : leases c task
          ≡ sort epoch_rank (select (is_lease_of m task) (of_type as_lease c)) =
        rw (leases, bundled-manifest b agree task m known r counted) refl in
      shown
      ∙ ap (λ l. sort epoch_rank (select (is_lease_of m task) l))
          (bundled-leases_of b agree task m known r counted)
      ∙ again epoch_rank (is_lease_of m task) (leases b task)
          (subst (IsSorted epoch_rank) (sym leases_b)
            (sort-IsSorted epoch_rank epoch_order found_leases))
          (λ l k.
            (Memᴰ-select (is_lease_of m task) (of_type as_lease b)
              (Memᴰ-sort epoch_rank found_leases (subst (λ z. Memᴰ l z) leases_b k))).1)

  abbrev time_rank : Envelope Finalize → Envelope Finalize → Bool
  time_rank = by_rank (λ (f : Envelope Finalize). f.ts) (λ f. f.id)

  abbrev found_finalizes : List (Envelope Finalize)
  found_finalizes = select (is_finalize_of m task) (of_type as_finalize b)

  finalizes_b : finalizes b task ≡ sort time_rank found_finalizes
  unfolding finalizes
  finalizes_b = rw (finalizes, known) refl

  pub finalizes_same : finalizes c task ≡ finalizes b task
  unfolding finalizes
  finalizes_same =
      let shown : finalizes c task
          ≡ sort time_rank (select (is_finalize_of m task) (of_type as_finalize c)) =
        rw (finalizes, bundled-manifest b agree task m known r counted) refl in
      shown
      ∙ ap (λ l. sort time_rank (select (is_finalize_of m task) l))
          (bundled-finalizes_of b agree task m known r counted)
      ∙ again time_rank (is_finalize_of m task) (finalizes b task)
          (subst (IsSorted time_rank) (sym finalizes_b) (
            sort-IsSorted time_rank
              (by_rank-IsStrictOrder (λ (f : Envelope Finalize). f.ts) (λ f. f.id))
              found_finalizes))
          (λ l k.
            (Memᴰ-select (is_finalize_of m task) (of_type as_finalize b)
              (Memᴰ-sort time_rank found_finalizes (subst (λ z. Memᴰ l z) finalizes_b k))).1)

  result_passes : is_result_of m (select is_fetcher (leases b task)) task r ≡ true
  unfolding results
  result_passes =
      let ls = select is_fetcher (leases b task) in
      let all_results = select (is_result_of m ls task) (of_type as_result b) in
      let kept : Memᴰ r (sort (by_rank (epoch_of ls) (λ x. x.id)) all_results) =
        rw (known, results) at counted in
      (Memᴰ-select (is_result_of m ls task) (of_type as_result b)
        (Memᴰ-sort (by_rank (epoch_of ls) (λ x. x.id)) all_results kept)).1

  pub results_same : results c task ≡ r ∷ []
  unfolding results sort insert_by filter_map
  results_same =
      let ls = select is_fetcher (leases b task) in
      let shown : results c task
          ≡ sort (by_rank (epoch_of (select is_fetcher (leases c task))) (λ x. x.id)) (
              select (is_result_of m (select is_fetcher (leases c task)) task)
                (of_type as_result c)) =
        rw (results, bundled-manifest b agree task m known r counted) refl in
      shown
      ∙ ap
          (λ l.
            sort (by_rank (epoch_of (select is_fetcher l)) (λ x. x.id))
              (select (is_result_of m (select is_fetcher l) task) (of_type as_result c)))
          leases_same
      ∙ ap (λ l. sort (by_rank (epoch_of ls) (λ x. x.id)) (select (is_result_of m ls task) l))
          (bundled-results_of b agree task m known r counted)
      ∙ ap (sort (by_rank (epoch_of ls) (λ x. x.id)))
          (select-cons_true (is_result_of m ls task) r [] result_passes)

  abbrev verify_leases : List (Envelope Lease)
  verify_leases = select is_verifier (leases b task)

  abbrev cands : List (Envelope Attest)
  cands = select (is_attest_of task r.id) (of_type as_attest b)

  attests_b : attests b task r.id ≡ collect r.signer verify_leases [] (sort id_lt cands)
  unfolding attests
  attests_b = rw (attests, result_found b agree task m known r counted) refl

  pub attests_same : attests c task r.id ≡ attests b task r.id
  unfolding attests
  attests_same =
      let shown : attests c task r.id
          ≡ collect r.signer (select is_verifier (leases c task)) []
              (sort id_lt (select (is_attest_of task r.id) (of_type as_attest c))) =
        rw (attests, bundled-result b agree task m known r counted) refl in
      let sorted : IsSorted id_lt (attests b task r.id) = subst (IsSorted id_lt) (sym attests_b) (
        collect-IsSorted r.signer verify_leases [] (sort id_lt cands)
          (sort-IsSorted id_lt id_lt-IsStrictOrder cands)) in
      shown
      ∙ ap
          (λ l.
            collect r.signer (select is_verifier l) []
              (sort id_lt (select (is_attest_of task r.id) (of_type as_attest c))))
          leases_same
      ∙ ap (λ l. collect r.signer verify_leases [] (sort id_lt (select (is_attest_of task r.id) l)))
          (bundled-attests_of b agree task m known r counted)
      ∙ ap (collect r.signer verify_leases []) (
          again id_lt (is_attest_of task r.id) (attests b task r.id) sorted (λ a k.
            (Memᴰ-select (is_attest_of task r.id) (of_type as_attest b) (
              Memᴰ-sort id_lt cands (
                collect_subset r.signer verify_leases [] (sort id_lt cands)
                  (subst (λ z. Memᴰ a z) attests_b k)))).1))
      ∙ subst (λ l. collect r.signer verify_leases [] l ≡ l) (sym attests_b)
          (collect_again r.signer verify_leases [] (sort id_lt cands))
