-- ===== src/Swarm/Reader/Bounded.antt =====
-- src/swarm/task-validation.ts: what the reader returns, and when it refuses.
use gstdbot.Common.{
  if◌then◌else◌, ◌||◌, ℕ, ◌+◌, ◌≤◌, ◌<◌, ltb, Option, none, some, List, [], ◌∷◌, ◌++◌, length,
  length-append, arith, ◌≡◌, refl, inl, inr, Bool-cases,
}
use gstdbot.Swarm.Reader.{Bytes, too_long, read_chunks, read_bounded_response}

-- The bytes of the chunks, one after the other.
pub whole : List Bytes → Bytes
whole [] = []
whole (c ∷ cs) = c ++ whole cs

read_chunks_lem :
    (max read : ℕ) (cs : List Bytes)
    → read ≤ max
    → (read + length (whole cs) ≤ max → read_chunks max read cs ≡ some (whole cs))
      × (max < read + length (whole cs) → read_chunks max read cs ≡ none)
unfolding read_chunks whole
read_chunks_lem max read [] h = (λ k. refl, λ k. absurd (omega (arith, h, k)))
read_chunks_lem max read (c ∷ cs) h =
    let sizes = length-append c (whole cs) in
    elim (Bool-cases (ltb max (read + length c))) [
      | inl e ↦ (λ k. absurd (ground (arith, sizes)), λ k. rw e refl)
      | inr e ↦
          let (fits, over) = read_chunks_lem max (read + length c) cs (ground arith) in
          (
            λ k. rw (e, fits (omega (arith, sizes, k))) refl,
            λ k. rw (e, over (omega (arith, sizes, k))) refl,
          )
    ]

-- A response with a body is read whole, chunk after chunk, unless its declared length or the number of
-- its bytes is above the limit, where it is refused.
pub read_bounded_response_lem :
    (max : ℕ) (declared : Option ℕ) (cs : List Bytes)
    → read_bounded_response max declared (some cs)
      ≡ (if too_long max declared || ltb max (length (whole cs)) then none else some (whole cs))
unfolding read_bounded_response
read_bounded_response_lem max declared cs =
    let (fits, over) = read_chunks_lem max 0 cs (omega arith) in
    elim (Bool-cases (too_long max declared)) [
      | inl e ↦ rw e refl
      | inr e ↦ elim (Bool-cases (ltb max (length (whole cs)))) [
        | inl g ↦ rw (e, g) (over (ground arith))
        | inr g ↦ rw (e, g) (fits (ground arith))
      ]
    ]
