-- ===== src/Sovereign/Node/Duties/Candidates.antt =====
-- src/sovereign/node.ts: who is a candidate for a lease.
use gstdbot.Common.{
  ℕ, String, ◌==◌, eq_refl, true, false, ◌&&◌, Option, some, List, [], ◌∷◌, ◌++◌, any_complete,
  select, sort, sort-perm_self, arith, ◌≡◌, ◌≢◌, sym, subst, Memᴰ, Memᴰ-append_left,
  Memᴰ-append_right, Memᴰ-map, Memᴰ-map_of, Memᴰ-sort, Memᴰ-sort_of, Memᴰ-select, Memᴰ-select_of,
  and-true, Distinct, Distinct-perm, Distinct-map-select, Permᴰ-map,
}
use mathlib.Core.List.Permᴰ
use gstdbot.Sovereign.Envelope.{Envelope, Payload, Manifest, Announce, LeaseRole, as_announce}
use gstdbot.Sovereign.Crypto.{Primitives}
use gstdbot.Sovereign.Board.{Board, includes, backups_of}
use gstdbot.Sovereign.Board.Entities.{announces}
use gstdbot.Sovereign.Board.Announced.{announces_sound, announces-Distinct}
use gstdbot.Sovereign.Node.Duties.{plays, preferred, is_candidate, candidates, reserved}

pub includes-member : (l : List String) (s : String) → includes l s ≡ false → Memᴰ s l → ⊥
includes-member l s h m = cc (any_complete (λ x. x == s) m (eq_refl s), h)

-- Nobody who was reserved or used: neither the publisher, nor a backup, nor the coordinator itself.
pub record IsIndependent (me : String) (m : Envelope Manifest) (worker : String) : Type 0 where
  pub publisher : worker ≢ m.signer
  pub backup : Memᴰ worker (backups_of m.payload) → ⊥
  pub itself : worker ≢ me

-- The worker announced the role and the adapter, on the board.
pub record IsAnnounced (b : Board) (role : LeaseRole) (worker : String) : Type 0 where
  pub announcement : Envelope Announce
  pub held : (e : Envelope Payload) × Memᴰ e b.objects × (as_announce e ≡ some announcement)
  pub by_worker : announcement.signer ≡ worker
  pub role_announced : plays role announcement.payload ≡ true
  pub adapter_announced : includes announcement.payload.adapters "npm-registry" ≡ true

module _ (prim : Primitives) (hostname : String → Option String) where
  pub Memᴰ-candidates :
      (b : Board) (now : ℕ) (role : LeaseRole) (exclude : List String) (task : String)
      (avoid : List String) {w : String}
      → Memᴰ w (candidates prim hostname b now role exclude task avoid)
      → IsAnnounced b role w × (Memᴰ w exclude → ⊥)
  unfolding candidates
  Memᴰ-candidates b now role exclude task avoid {w} m =
      let before = preferred prim hostname b now task avoid in
      let fits = is_candidate role exclude in
      let (a, there, e) =
        Memᴰ-map (λ (x : Envelope Announce). x.signer) (sort before (select fits (announces b)))
          m in
      let (known, fit) = Memᴰ-select fits (announces b) (Memᴰ-sort before _ there) in
      let (able, new) =
        and-true {a = plays role a.payload && includes a.payload.adapters "npm-registry"} fit in
      let (role_ok, adapter_ok) = and-true {a = plays role a.payload} able in
      let fresh : includes exclude a.signer ≡ false = ground arith in
      (
        record {
          announcement = a;
          held = announces_sound b known;
          by_worker = sym e;
          role_announced = role_ok;
          adapter_announced = adapter_ok;
        },
        λ k. includes-member exclude a.signer fresh (subst (λ x. Memᴰ x exclude) e k),
      )

  pub Memᴰ-candidates_of :
      (b : Board) (now : ℕ) (role : LeaseRole) (exclude : List String) (task : String)
      (avoid : List String) {a : Envelope Announce}
      → Memᴰ a (announces b)
      → is_candidate role exclude a ≡ true
      → Memᴰ a.signer (candidates prim hostname b now role exclude task avoid)
  unfolding candidates
  Memᴰ-candidates_of b now role exclude task avoid {a} known fits =
      Memᴰ-map_of (λ (x : Envelope Announce). x.signer)
        (Memᴰ-sort_of (preferred prim hostname b now task avoid) _
          (Memᴰ-select_of (is_candidate role exclude) known fits))

  pub candidates-Distinct :
      (b : Board) (now : ℕ) (role : LeaseRole) (exclude : List String) (task : String)
      (avoid : List String)
      → Distinct (candidates prim hostname b now role exclude task avoid)
  unfolding candidates
  candidates-Distinct b now role exclude task avoid =
      let before = preferred prim hostname b now task avoid in
      let fits = is_candidate role exclude in
      Distinct-perm
        (Permᴰ-map (λ (x : Envelope Announce). x.signer)
          (Permᴰ.symm (sort-perm_self before (select fits (announces b)))))
        (Distinct-map-select (λ (x : Envelope Announce). x.signer) fits (announces b)
          (announces-Distinct b))

pub reserved-IsIndependent :
    (me : String) (m : Envelope Manifest) (more : List String) {w : String}
    → (Memᴰ w (reserved me m ++ more) → ⊥)
    → IsIndependent me m w
reserved-IsIndependent me m more new = record {
  publisher = λ e. new (Memᴰ.head e);
  backup = λ k. new (Memᴰ.tail (Memᴰ-append_left more (Memᴰ-append_left (me ∷ []) k)));
  itself = λ e.
      new (
        Memᴰ.tail (Memᴰ-append_left more (Memᴰ-append_right (backups_of m.payload) (Memᴰ.head e))));
}
