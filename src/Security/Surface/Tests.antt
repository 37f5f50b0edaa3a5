-- ===== src/Security/Surface/Tests.antt =====
-- src/security/surface.ts: the surface of some paths.
use gstdbot.Common.{true, not, all, ◌≡◌, refl}
use gstdbot.Security.Surface.{
  open_to_all, operator, retired, public_paths, is_retired, node_surface,
}

-- No public path is retired.
public_paths-kept : all (λ p. not (is_retired p)) public_paths ≡ true
public_paths-kept = refl

-- A path below a retired one is retired, and one that only begins with its letters is not.
below-retired :
    (node_surface "/api/wallet/send" ≡ retired)
    × (node_surface "/api/wallets" ≡ operator)
    × (node_surface "/health" ≡ open_to_all)
below-retired = (refl, refl, refl)
