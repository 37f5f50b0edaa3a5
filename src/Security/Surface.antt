-- ===== src/Security/Surface.antt =====
-- src/security/surface.ts: who may ask for a path.
mod Tests
use text.Mathlib.Text.{starts_with}
use gstdbot.Common.{String, ◌==◌, Bool, ◌||◌, if◌then◌else◌, List, [], ◌∷◌, any}

pub data Surface : Type 0 where
  open_to_all operator retired : Surface

abbrev pub retired_prefixes : List String
retired_prefixes =
    "/api/v1/tasks/push" ∷ "/api/update/component" ∷ "/api/node/bind-wallet"
    ∷ "/api/node/unbind-wallet" ∷ "/api/fees" ∷ "/api/node/rewards" ∷ "/api/wallet" ∷ "/api/system"
    ∷ "/api/bridge" ∷ "/api/apps" ∷ "/apps" ∷ "/api/telegram" ∷ "/api/training" ∷ "/api/validator"
    ∷ "/api/validators" ∷ "/api/vaults" ∷ "/api/oracle" ∷ "/api/enterprise" ∷ "/api/defi"
    ∷ "/api/naas" ∷ "/api/system/reinstall" ∷ "/api/system/reset" ∷ "/api/system/update-os"
    ∷ "/api/system/ssh" ∷ "/api/ssl" ∷ "/api/dns/setup" ∷ "/api/storage" ∷ "/api/relay"
    ∷ "/api/tasks" ∷ "/api/rewards/claim" ∷ []

abbrev pub public_paths : List String
public_paths =
    "/.well-known/gstd-node" ∷ "/health" ∷ "/favicon.ico" ∷ "/v1/models" ∷ "/v1/chat/completions"
    ∷ "/api/v1/chat" ∷ "/api/auth/setup" ∷ "/api/auth/login" ∷ "/api/auth/check"
    ∷ "/api/v1/free-api/key" ∷ "/api/v1/free-api/chat" ∷ []

abbrev pub is_retired : String → Bool
is_retired path =
    any (λ p. path == p || starts_with path (Prim.Native.String.◌++◌ p "/")) retired_prefixes

abbrev pub is_public : String → Bool
is_public path = path == "/" || starts_with path "/static/" || any (λ p. p == path) public_paths

abbrev pub node_surface : String → Surface
node_surface path =
    if is_retired path then retired else if is_public path then open_to_all else operator
