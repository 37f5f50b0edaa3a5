-- ===== src/Sovereign/Board/Voted.antt =====
-- src/sovereign/board.ts: an attestation that is added counts on the board.
use gstdbot.Common.{
  String, ◌==◌, eq_iff, eq_refl, true, false, List, [], ◌∷◌, any, ◌≡◌, refl, sym, subst, inl, inr,
  Bool-cases, Memᴰ, Memᴰ-cons,
}
use gstdbot.Sovereign.Envelope.{Envelope, Lease, Attest}
use gstdbot.Sovereign.Board.{includes, collect}
use gstdbot.Sovereign.Board.Votes.{collect_cases}

-- The only candidate of its signer is collected, if it may vote.
pub collect_complete :
    (worker : String) (ls : List (Envelope Lease)) (seen : List String)
    (cands : List (Envelope Attest)) (a : Envelope Attest)
    → Memᴰ a cands
    → ((c : Envelope Attest) → Memᴰ c cands → c.signer ≡ a.signer → c ≡ a)
    → (a.signer == worker) ≡ false
    → any (λ (l : Envelope Lease). l.payload.worker == a.signer) ls ≡ true
    → includes seen a.signer ≡ false
    → Memᴰ a (collect worker ls seen cands)
unfolding collect
collect_complete worker ls seen [] a m only other leased new = m
collect_complete worker ls seen (c ∷ rest) a m only other leased new =
    elim (Bool-cases (c.signer == a.signer)) [
      | inl e ↦
          let same : c ≡ a = only c (Memᴰ.head refl) ((eq_iff c.signer a.signer).0 e) in
          subst (λ x. Memᴰ a (collect worker ls seen (x ∷ rest))) (sym same)
            (rw (collect, other, leased, new) (Memᴰ.head refl))
      | inr e ↦ elim (Memᴰ-cons m) [
        | inl same ↦ absurd (cc (same, e, eq_refl a.signer))
        | inr k ↦
            let still = λ (x : Envelope Attest) (n : Memᴰ x rest). only x (Memᴰ.tail n) in
            elim (collect_cases worker ls seen c rest) [
              | inl f ↦ rw f (collect_complete worker ls seen rest a k still other leased new)
              | inr (f, _, _, _) ↦ rw f (
                  Memᴰ.tail (
                    collect_complete worker ls (c.signer ∷ seen) rest a k still other leased
                      (rw (e, new) refl)))
            ]
      ]
    ]
