-- ===== src/Tunnel/Interface/Steady.antt =====
-- When the live peers of internal/tunnel/wgconf.go can be brought to the desired ones step by step.
use safeswitch_router.Common.{
  ◌≡◌, refl, Bool, true, false, not, ◌&&◌, Option, none, some, List, [], ◌∷◌, arith, any, All,
  Bytes, same, same_iff, if◌then◌else◌,
}
use safeswitch_router.Common.Dict.{lookup}
use safeswitch_router.Tunnel.{PeerConfig}
use safeswitch_router.Tunnel.Interface.{Live}
use safeswitch_router.Tunnel.Interface.Passes.{is_held, address}

module _ (trim_space : Bytes → Bytes) where
  -- The address desired for a key.
  abbrev pub desired_ip : Bytes → List PeerConfig → Option Bytes
  desired_ip key [] = none
  desired_ip key (p ∷ desired) =
      if same p.public_key key then some (address trim_space p) else desired_ip key desired

  -- Two peers with different keys and addresses, neither live with the address of the other.
  abbrev pub are_apart : Live → PeerConfig → PeerConfig → Bool
  are_apart live p q =
      not (same p.public_key q.public_key)
      && not (same (address trim_space p) (address trim_space q))
      && not (is_held (address trim_space q) (lookup p.public_key live))
      && not (is_held (address trim_space p) (lookup q.public_key live))

  abbrev pub is_steady : Live → List PeerConfig → Bool
  is_steady live [] = true
  is_steady live (p ∷ desired) =
      not (any (λ q. not (are_apart live p q)) desired) && is_steady live desired

  -- The key is not one of these peers' and its address, in both tables, is not one of theirs.
  abbrev pub is_clear : Bytes → Live → Live → List PeerConfig → Bool
  is_clear j live table [] = true
  is_clear j live table (q ∷ desired) =
      not (same q.public_key j)
      && not (is_held (address trim_space q) (lookup j live))
      && not (is_held (address trim_space q) (lookup j table))
      && is_clear j live table desired

  pub is_clear_congr :
      (j : Bytes) (live live' table table' : Live) (desired : List PeerConfig)
      → lookup j live' ≡ lookup j live
      → lookup j table' ≡ lookup j table
      → is_clear j live' table' desired ≡ is_clear j live table desired
  is_clear_congr j live live' table table' [] h k = refl
  is_clear_congr j live live' table table' (q ∷ desired) h k =
      ground (arith, h, k, is_clear_congr j live live' table table' desired h k)

  -- Both tables have these peers as the first one had them.
  abbrev pub AreAgreed : Live → Live → Live → List PeerConfig → Type 0
  AreAgreed origin live table desired =
      All
        (λ q.
          (lookup q.public_key live ≡ lookup q.public_key origin)
          × (lookup q.public_key table ≡ lookup q.public_key origin))
        desired

  pub is_clear-are_apart :
      (p : PeerConfig) (origin live table : Live) (desired : List PeerConfig)
      → lookup p.public_key live ≡ lookup p.public_key origin
      → lookup p.public_key table ≡ some (address trim_space p)
      → any (λ q. not (are_apart origin p q)) desired ≡ false
      → is_clear p.public_key live table desired ≡ true
  is_clear-are_apart p origin live table [] h k a = refl
  is_clear-are_apart p origin live table (q ∷ desired) h k a = ground (
    arith,
    h,
    k,
    a,
    same_iff q.public_key p.public_key,
    same_iff p.public_key q.public_key,
    is_clear-are_apart p origin live table desired h k,
  )
