-- ===== src/Sovereign/Node/Limiter.antt =====
-- src/sovereign/node.ts: `limited`, the rate limit of requests by address.
use gstdbot.Common.{
  lookup, put, ℕ, suc, ◌+◌, ltb, String, ◌==◌, Bool, true, false, if◌then◌else◌, Option, none, some,
  List, [], ◌∷◌,
}
pub mod Served

pub record Window : Type 0 where
  pub n : ℕ
  pub reset : ℕ

abbrev pub Rate : Type 0
Rate = List (String × Window)

abbrev pub new_window : ℕ → Window
new_window now = record { n = 1; reset = now + 60000 }

-- Whether the request is refused, and the window after it.
abbrev pub count_request : ℕ → Option Window → Bool × Window
count_request now none = (false, new_window now)
count_request now (some w) =
    if ltb w.reset now
    then (false, new_window now)
    else (ltb 6000 (suc w.n), record w { n = suc w.n })

unfoldable pub limited : ℕ → String → Rate → Bool × Rate
limited now ip rate =
    let (refused, w) = count_request now (lookup ip rate) in (refused, put ip w rate)
