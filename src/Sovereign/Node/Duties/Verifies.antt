-- ===== src/Sovereign/Node/Duties/Verifies.antt =====
-- src/sovereign/node.ts: whom a coordinator leases the verification of a result to.
use gstdbot.Common.{
  ℕ, suc, ◌+◌, ◌-◌, ◌≤◌, ltb, length, take, String, Option, some, List, [], ◌∷◌, ◌++◌, map, select,
  arith, ◌≡◌, ◌≢◌, refl, sym, ap, subst, inl, inr, Bool-cases, Memᴰ, Memᴰ-append_left,
  Memᴰ-append_right, Memᴰ-map, Memᴰ-map_of, Memᴰ-take, head?, Distinct, Distinct-take,
  length-take-le, append_assoc, max,
}
use gstdbot.Sovereign.Envelope.{Envelope, Manifest, Lease, verifier, Result}
use gstdbot.Sovereign.Crypto.{Primitives}
use gstdbot.Sovereign.Board.{Board, leases, results, is_verifier}
use gstdbot.Sovereign.Node.Duties.Candidates.{
  IsIndependent, IsAnnounced, Memᴰ-candidates, candidates-Distinct, reserved-IsIndependent,
}
use gstdbot.Sovereign.Node.Duties.{
  candidates, reserved, workers, new_lease, is_active, hosts_to_avoid, verify_leases_for,
  verify_leases,
}

-- A verification lease that a coordinator may sign for a result.
pub record IsVerifyLease (me : String) (b : Board) (now : ℕ) (task : String) (m : Envelope Manifest)
    (first : Envelope Result) (l : Lease) : Type 0 where
  pub of_task : l.task_id ≡ task
  pub role : l.role ≡ verifier
  pub expires : l.expires_at ≡ now + m.payload.lease_ms
  pub announced : IsAnnounced b verifier l.worker
  pub independent : IsIndependent me m l.worker
  pub not_worker : l.worker ≢ first.signer
  pub unused :
      (x : Envelope Lease)
      → Memᴰ x (select is_verifier (leases b task))
      → x.payload.worker ≢ l.worker

-- The verification leases that are signed at once.
pub record AreVerifyLeases (me : String) (b : Board) (now : ℕ) (task : String)
    (m : Envelope Manifest) (first : Envelope Result) (ls : List Lease) : Type 0 where
  pub each : (l : Lease) → Memᴰ l ls → IsVerifyLease me b now task m first l
  pub distinct : Distinct (map (λ (l : Lease). l.worker) ls)
  pub enough :
      length (select (is_active b now task first) (select is_verifier (leases b task))) + length ls
      ≤ max m.payload.min_verifiers
          (length (select (is_active b now task first) (select is_verifier (leases b task))))

workers_of-new_lease :
    (task : String) (expires : ℕ) (ws : List String)
    → map (λ (l : Lease). l.worker) (map (new_lease task verifier 1 expires) ws) ≡ ws
workers_of-new_lease task expires [] = refl
workers_of-new_lease task expires (w ∷ ws) = ap (λ z. w ∷ z) (workers_of-new_lease task expires ws)

length-map {ℓ κ} : {A : Type ℓ} {B : Type κ} (f : A → B) (l : List A) → length (map f l) ≡ length l
length-map f [] = refl
length-map f (x ∷ l) = ap suc (length-map f l)

module _ (v_leases : List (Envelope Lease)) (me : String) (m : Envelope Manifest)
    (first : Envelope Result) where
  -- `++` in the list of the used is read from the left.
  abbrev used_by : List String
  used_by = workers v_leases ++ reserved me m ++ first.signer ∷ []

  rest_used : {w : String} → Memᴰ w (reserved me m ++ first.signer ∷ []) → Memᴰ w used_by
  rest_used {w} k =
      subst (Memᴰ w) (sym (append_assoc (workers v_leases) (reserved me m) (first.signer ∷ [])))
        (Memᴰ-append_right (workers v_leases) k)

  lease_used : {w : String} → Memᴰ w (workers v_leases) → Memᴰ w used_by
  lease_used k = Memᴰ-append_left (first.signer ∷ []) (Memᴰ-append_left (reserved me m) k)

module _ (prim : Primitives) (hostname : String → Option String) where
  verify_leases_for-AreVerifyLeases :
      (me : String) (b : Board) (now : ℕ) (task : String) (m : Envelope Manifest)
      (first : Envelope Result)
      → AreVerifyLeases me b now task m first
          (verify_leases_for prim hostname me b now task m first)
  unfolding verify_leases_for
  verify_leases_for-AreVerifyLeases me b now task m first =
      let v_leases = select is_verifier (leases b task) in
      let active = select (is_active b now task first) v_leases in
      let used = workers v_leases ++ reserved me m ++ first.signer ∷ [] in
      let avoid = hosts_to_avoid prim hostname b first in
      let ws = candidates prim hostname b now verifier used task avoid in
      let needed = m.payload.min_verifiers - length active in
      let expires = now + m.payload.lease_ms in
      elim (Bool-cases (ltb (length active) m.payload.min_verifiers)) [
        | inr c ↦
            rw (verify_leases_for, c)
              (record { each = λ l n. elim n [ ]; distinct = tt; enough = omega arith })
        | inl c ↦
            rw (verify_leases_for, c)
              (record {
                each = λ l n.
                    let (w, k, e) =
                      Memᴰ-map (new_lease task verifier 1 expires) (take needed ws) n in
                    let (known, new) =
                      Memᴰ-candidates prim hostname b now verifier used task avoid
                        (Memᴰ-take needed ws k) in
                    subst (IsVerifyLease me b now task m first) (sym e) (record {
                      of_task = refl;
                      role = refl;
                      expires = refl;
                      announced = known;
                      independent =
                          reserved-IsIndependent me m (first.signer ∷ [])
                            (λ z. new (rest_used v_leases me m first z));
                      not_worker = λ z. new (
                          rest_used v_leases me m first
                            (Memᴰ-append_right (reserved me m) (Memᴰ.head z)));
                      unused = λ x z same. new (
                          lease_used v_leases me m first (
                            subst (λ y. Memᴰ y (workers v_leases)) same
                              (Memᴰ-map_of (λ (y : Envelope Lease). y.payload.worker) z)));
                    });
                distinct =
                    subst Distinct (sym (workers_of-new_lease task expires (take needed ws))) (
                      Distinct-take needed ws
                        (candidates-Distinct prim hostname b now verifier used task avoid));
                enough = ground (
                  arith,
                  length-map (new_lease task verifier 1 expires) (take needed ws),
                  length-take-le needed ws,
                );
              })
      ]

  -- The verification leases that a coordinator signs at once are for the first counted result of the
  -- task, and for different workers, each of whom announced the role and the adapter, is neither the
  -- publisher nor a backup nor the coordinator nor the worker of the result, and had no verification
  -- lease of the task; with those that are active they are no more than the manifest asks for, unless
  -- those alone are.
  pub verify_leases-AreVerifyLeases :
      (me : String) (b : Board) (now : ℕ) (task : String) (m : Envelope Manifest)
      (first : Envelope Result)
      → head? (results b task) ≡ some first
      → AreVerifyLeases me b now task m first (verify_leases prim hostname me b now task m)
  unfolding verify_leases
  verify_leases-AreVerifyLeases me b now task m first e =
      rw (verify_leases, e) (verify_leases_for-AreVerifyLeases me b now task m first)
