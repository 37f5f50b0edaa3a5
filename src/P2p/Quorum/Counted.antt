-- ===== src/P2p/Quorum/Counted.antt =====
-- src/p2p/quorum-coordinator.ts: the attestations that are held, and those that count.
use gstdbot.Common.{
  String, ◌==◌, eq_iff, Bool, true, if◌then◌else◌, some, List, [], ◌∷◌, map, arith, ◌≡◌, sym, ap,
  subst, ◌∙◌, ◌⊎◌, inl, inr, eq_of_some, Memᴰ, Memᴰ-cons, Memᴰ-singleton, Memᴰ-map, Memᴰ-map_of,
  Distinct, Option-cases, Bool-cases,
}
use gstdbot.P2p.Quorum.{
  P2pAttestation, Primitives, Context, collect, verify_attestation_locally, verify_all,
}

abbrev pub key_of : P2pAttestation → String
key_of a = a.pubkey_hex

-- The attestation that was received is held, and the others that are were.
pub Memᴰ-collect :
    (a : P2pAttestation) (l : List P2pAttestation) {x : P2pAttestation}
    → Memᴰ x (collect a l)
    → (x ≡ a) ⊎ Memᴰ x l
unfolding collect
Memᴰ-collect a [] m = inl (Memᴰ-singleton m)
Memᴰ-collect a (y ∷ l) m = elim (Bool-cases (y.pubkey_hex == a.pubkey_hex)) [
  | inl e ↦ elim (Memᴰ-cons (rw e at m)) [ inl p ↦ inl p | inr k ↦ inr (Memᴰ.tail k) ]
  | inr e ↦ elim (Memᴰ-cons (rw e at m)) [
    | inl p ↦ inr (Memᴰ.head p)
    | inr k ↦ elim (Memᴰ-collect a l k) [ inl q ↦ inl q | inr j ↦ inr (Memᴰ.tail j) ]
  ]
]

pub Distinct-collect :
    (a : P2pAttestation) (l : List P2pAttestation)
    → Distinct (map key_of l)
    → Distinct (map key_of (collect a l))
unfolding collect
Distinct-collect a [] d = (λ m. elim m [ ], tt)
Distinct-collect a (y ∷ l) d = elim (Bool-cases (y.pubkey_hex == a.pubkey_hex)) [
  | inl e ↦ rw e (
    λ m. d.0 (subst (λ k. Memᴰ k (map key_of l)) (sym ((eq_iff y.pubkey_hex a.pubkey_hex).0 e)) m),
    d.1,
  )
  | inr e ↦ rw e (
    λ m.
        let (x, there, same) = Memᴰ-map key_of (collect a l) m in
        elim (Memᴰ-collect a l there) [
          | inl p ↦ cc ((eq_iff y.pubkey_hex a.pubkey_hex).1 (same ∙ ap key_of p), e)
          | inr k ↦ d.0 (subst (λ s. Memᴰ s (map key_of l)) (sym same) (Memᴰ-map_of key_of k))
        ],
    Distinct-collect a l d.1,
  )
]

-- Where keys are distinct, the attestation that was received is the only one held with its key.
pub collect_unique :
    (a : P2pAttestation) (l : List P2pAttestation) {x : P2pAttestation}
    → Distinct (map key_of l)
    → Memᴰ x (collect a l)
    → x.pubkey_hex ≡ a.pubkey_hex
    → x ≡ a
unfolding collect
collect_unique a [] d m same = Memᴰ-singleton m
collect_unique a (y ∷ l) {x} d m same = elim (Bool-cases (y.pubkey_hex == a.pubkey_hex)) [
  | inl e ↦ elim (Memᴰ-cons (rw e at m)) [
    | inl p ↦ p
    | inr k ↦ absurd (
        d.0 (
          subst (λ s. Memᴰ s (map key_of l)) (same ∙ sym ((eq_iff y.pubkey_hex a.pubkey_hex).0 e))
            (Memᴰ-map_of key_of k)))
  ]
  | inr e ↦ elim (Memᴰ-cons (rw e at m)) [
    | inl p ↦ absurd (cc ((eq_iff y.pubkey_hex a.pubkey_hex).1 (sym (ap key_of p) ∙ same), e))
    | inr k ↦ collect_unique a l d.1 k same
  ]
]

module _ (prim : Primitives) (ctx : Context) where
  verify_all-cons :
      (a : P2pAttestation) (l : List P2pAttestation) {vs : List P2pAttestation}
      → verify_all prim ctx (a ∷ l) ≡ some vs
      → (ok : Bool) × (rest : List P2pAttestation) × (verify_attestation_locally prim ctx a
          ≡ some ok)
        × (verify_all prim ctx l ≡ some rest)
        × (vs ≡ (if ok then a ∷ rest else rest))
  unfolding verify_all
  verify_all-cons a l {vs} h = elim (Option-cases (verify_attestation_locally prim ctx a)) [
    | inl e ↦ absurd (ground arith)
    | inr (ok, e) ↦ elim (Option-cases (verify_all prim ctx l)) [
      | inl g ↦ absurd (ground arith)
      | inr (rest, g) ↦
          let made : some (if ok then a ∷ rest else rest) ≡ some vs = ground arith in
          (ok, rest, e, g, sym (eq_of_some made))
    ]
  ]

  pub verify_all_sound :
      (l : List P2pAttestation) {vs : List P2pAttestation} {a : P2pAttestation}
      → verify_all prim ctx l ≡ some vs
      → Memᴰ a vs
      → Memᴰ a l × (verify_attestation_locally prim ctx a ≡ some true)
  unfolding verify_all
  verify_all_sound [] {a = a} h m = elim (subst (λ l. Memᴰ a l) (sym (eq_of_some h)) m) [ ]
  verify_all_sound (x ∷ l) {vs} {a} h m =
      let (ok, rest, e, g, made) = verify_all-cons x l h in
      elim (Bool-cases ok) [
        | inl k ↦
            let both : vs ≡ x ∷ rest = rw k at made in
            elim (Memᴰ-cons (subst (λ l. Memᴰ a l) both m)) [
              | inl p ↦ (Memᴰ.head p, ap (verify_attestation_locally prim ctx) p ∙ e ∙ ap some k)
              | inr j ↦ let (there, good) = verify_all_sound l g j in (Memᴰ.tail there, good)
            ]
        | inr k ↦
            let only : vs ≡ rest = rw k at made in
            let (there, good) = verify_all_sound l g (subst (λ l. Memᴰ a l) only m) in
            (Memᴰ.tail there, good)
      ]

  pub verify_all-Distinct :
      (l : List P2pAttestation) {vs : List P2pAttestation}
      → verify_all prim ctx l ≡ some vs
      → Distinct (map key_of l)
      → Distinct (map key_of vs)
  unfolding verify_all
  verify_all-Distinct [] h d = subst (λ l. Distinct (map key_of l)) (eq_of_some h) tt
  verify_all-Distinct (x ∷ l) {vs} h d =
      let (ok, rest, e, g, made) = verify_all-cons x l h in
      let tail = verify_all-Distinct l g d.1 in
      elim (Bool-cases ok) [
        | inl k ↦
            let both : vs ≡ x ∷ rest = rw k at made in
            subst (λ l. Distinct (map key_of l)) (sym both)
              (
                λ m.
                    let (y, there, same) = Memᴰ-map key_of rest m in
                    let (held, _) = verify_all_sound l {a = y} g there in
                    d.0 (subst (λ s. Memᴰ s (map key_of l)) (sym same) (Memᴰ-map_of key_of held)),
                tail,
              )
        | inr k ↦
            let only : vs ≡ rest = rw k at made in
            subst (λ l. Distinct (map key_of l)) (sym only) tail
      ]
