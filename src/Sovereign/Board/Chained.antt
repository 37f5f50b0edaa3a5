-- ===== src/Sovereign/Board/Chained.antt =====
-- src/sovereign/board.ts: the history of an entity is a hash chain of all its accepted observations.
use Prim.Native.String
use gstdbot.Common.{
  ℕ, suc, ◌+◌, ◌<◌, length, String, ◌==◌, eq_iff, Option, none, some, List, [], ◌∷◌, arith, ◌≡◌,
  refl, inl, inr, Bool-cases,
}
use gstdbot.Sovereign.Crypto.{Primitives}
use gstdbot.Sovereign.Board.Store.{Board}
use gstdbot.Sovereign.Board.Entities.{
  HistoryEntry, Observed, observed, prev_text, new_entry, chain, link, history,
}

abbrev pub observations_in : List HistoryEntry → ℕ
observations_in [] = 0
observations_in (e ∷ es) = e.observations + observations_in es

module _ (prim : Primitives) where
  -- One entry, after `size` others of which the last has the chain hash `prev`.
  abbrev pub IsLink : ℕ → Option String → HistoryEntry → Type 0
  IsLink size prev e =
      (e.seq ≡ suc size)
      × (e.prev_chain_hash ≡ prev)
      × (e.chain_hash
          ≡ prim.sha256_hex (
              Prim.Native.String.◌++◌ (prev_text prev)
                (Prim.Native.String.◌++◌ "|" e.content_hash)))
      × (0 < e.observations)

  abbrev pub DiffersFromFirst : HistoryEntry → List HistoryEntry → Type 0
  DiffersFromFirst e [] = Unit
  DiffersFromFirst e (f ∷ es) = e.content_hash ≡ f.content_hash → ⊥

  -- Entries are numbered, each holds the hash of the one before and the hash of that with its own
  -- content, and the next has another content.
  abbrev pub IsChain : ℕ → Option String → List HistoryEntry → Type 0
  IsChain size prev [] = Unit
  IsChain size prev (e ∷ es) =
      IsLink size prev e × DiffersFromFirst e es × IsChain (suc size) (some e.chain_hash) es

  chain-DiffersFromFirst :
      (e : HistoryEntry) (size : ℕ) (last : HistoryEntry) (os : List Observed)
      → (e.content_hash ≡ last.content_hash → ⊥)
      → DiffersFromFirst e (chain prim size last os)
  unfolding chain
  chain-DiffersFromFirst e size last [] h = h
  chain-DiffersFromFirst e size last (o ∷ os) h =
      elim (Bool-cases (last.content_hash == o.v.content_hash)) [
        | inl k ↦ rw k (
            chain-DiffersFromFirst e size (record last { observations = suc last.observations }) os
              h)
        | inr k ↦ rw k h
      ]

  chain-IsChain :
      (size : ℕ) (prev : Option String) (last : HistoryEntry) (os : List Observed)
      → IsLink size prev last
      → IsChain size prev (chain prim (suc size) last os)
        × (observations_in (chain prim (suc size) last os) ≡ last.observations + length os)
  unfolding chain
  chain-IsChain size prev last [] l = ((l, tt, tt), omega arith)
  chain-IsChain size prev last (o ∷ os) l =
      elim (Bool-cases (last.content_hash == o.v.content_hash)) [
        | inl k ↦
            let (a, b, c, d) = l in
            let (good, sum) =
              chain-IsChain size prev (record last { observations = suc last.observations }) os
                (a, b, c, omega arith) in
            rw k (good, omega (arith, sum))
        | inr k ↦
            let next = new_entry prim (suc size) (some last.chain_hash) o in
            let (good, sum) =
              chain-IsChain (suc size) (some last.chain_hash) next os
                (refl, refl, refl, omega arith) in
            rw k (
              (
                l,
                chain-DiffersFromFirst last (suc (suc size)) next os
                    (λ e. absurd (ground (arith, (eq_iff last.content_hash o.v.content_hash).1 e))),
                good,
              ),
              omega (arith, sum),
            )
      ]

  link-IsChain :
      (os : List Observed)
      → IsChain 0 none (link prim os) × (observations_in (link prim os) ≡ length os)
  link-IsChain [] = (tt, refl)
  link-IsChain (o ∷ os) =
      let (good, sum) =
        chain-IsChain 0 none (new_entry prim 0 none o) os (refl, refl, refl, omega arith) in
      (good, omega (arith, sum))

  -- The history of an entity is numbered from 1; the first entry holds no hash before it, every later
  -- one holds the chain hash of the entry before, and its own chain hash is that of the two; entries
  -- in a row differ in content; and together they count every accepted observation of the entity once.
  pub history-IsChain :
      (b : Board) (entity : String) (now : ℕ)
      → IsChain 0 none (history prim b entity now)
        × (observations_in (history prim b entity now) ≡ length (observed b entity now))
  unfolding history
  history-IsChain b entity now = link-IsChain (observed b entity now)
