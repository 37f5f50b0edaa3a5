-- ===== src/Sovereign/Node/Limiter/Served.antt =====
-- src/sovereign/node.ts: how many requests of an address are served in a minute.
use gstdbot.Common.{
  lookup, put, lookup-put, lookup-put_other, ℕ, suc, ◌+◌, ◌-◌, ◌≤◌, ◌<◌, min, ltb, String, ◌==◌,
  eq_iff, eq_refl, false, if◌then◌else◌, Option, none, some, List, [], ◌∷◌, arith, ◌≡◌, refl, ◌∙◌,
  inl, inr, Bool-cases,
}
use gstdbot.Sovereign.Node.Limiter.{Window, Rate, new_window, count_request, limited}

-- The requests of an address among some requests.
abbrev pub requests : String → List (ℕ × String) → ℕ
requests ip [] = 0
requests ip ((now, k) ∷ rs) = if k == ip then suc (requests ip rs) else requests ip rs

-- Those of them that are not refused.
unfoldable pub served : String → List (ℕ × String) → Rate → ℕ
served ip [] rate = 0
served ip ((now, k) ∷ rs) rate =
    let (refused, after) = limited now k rate in
    let rest = served ip rs after in if k == ip then (if refused then rest else suc rest) else rest

-- All the requests come up to a time.
abbrev pub AreUntil : ℕ → List (ℕ × String) → Type 0
AreUntil end [] = Unit
AreUntil end ((now, k) ∷ rs) = (now ≤ end) × AreUntil end rs

-- Requests served of `m` more, where `n` were counted in the window.
abbrev left : ℕ → ℕ → ℕ
left n m = min (n + m) 6000 - min n 6000

served-left :
    (ip : String) (rs : List (ℕ × String)) (rate : Rate) (w : Window)
    → lookup ip rate ≡ some w
    → AreUntil w.reset rs
    → served ip rs rate ≡ left w.n (requests ip rs)
unfolding served limited
served-left ip [] rate w found until = omega arith
served-left ip ((now, k) ∷ rs) rate w found (soon, until) = elim (Bool-cases (k == ip)) [
  | inr e ↦ rw e (
      served-left ip rs (limited now k rate).1 w
        (lookup-put_other ip k (count_request now (lookup k rate)).1 rate e ∙ found) until)
  | inl e ↦
      let same : k ≡ ip = (eq_iff k ip).0 e in
      let open_still : ltb w.reset now ≡ false = ground arith in
      let next : Window = record w { n = suc w.n } in
      let ih = served-left ip rs (put ip next rate) next (lookup-put ip next rate) until in
      rw (same, eq_refl ip, found, open_still) (ground (arith, ih))
]

-- The address has no window at that time.
abbrev pub HasNoWindow : ℕ → Option Window → Type 0
HasNoWindow now none = Unit
HasNoWindow now (some w) = w.reset < now

opens :
    (now : ℕ) (o : Option Window)
    → HasNoWindow now o
    → count_request now o ≡ (false, new_window now)
opens now none h = refl
opens now (some w) h = ground arith

-- From the request that opens a window of an address, and for 60 s, whatever other addresses ask, the
-- requests of the address that are served are all of them up to 6000, and no more.
pub served-min :
    (ip : String) (start : ℕ) (rs : List (ℕ × String)) (rate : Rate)
    → HasNoWindow start (lookup ip rate)
    → AreUntil (start + 60000) rs
    → served ip ((start, ip) ∷ rs) rate ≡ min (suc (requests ip rs)) 6000
unfolding served limited
served-min ip start rs rate fresh until =
    let opened = opens start (lookup ip rate) fresh in
    let ih =
      served-left ip rs (put ip (new_window start) rate) (new_window start)
        (lookup-put ip (new_window start) rate) until in
    rw (eq_refl ip, opened) (ground (arith, ih))
