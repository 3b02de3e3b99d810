-- ===== src/Firewall/Rules.antt =====
-- Which rules internal/firewall gives a device.
use safeswitch_router.Common.{
  ◌≡◌, Bool, ◌||◌, List, [], ◌∷◌, ◌++◌, map, arith, Bytes, bytes, same, if◌then◌else◌, ◌⊎◌, inl,
  inr,
}
use safeswitch_router.Firewall.{
  Args, build_rules, rules_of, state_paused, state_full_tunnel, state_service_only,
  state_full_access, from_args, to_args, between_args, gateway,
}
use safeswitch_router.Firewall.Enforcer.{Child, Enforcer, resolve_state}

-- May a device in this state reach more than the gateway?
abbrev pub opens : Bytes → Bool
opens state = same state state_full_tunnel || same state state_full_access

-- Each state that is resolved is one of the four.
resolve_state-cases :
    (e : Enforcer) (child : Child)
    → (resolve_state e child ≡ state_paused)
      ⊎ (resolve_state e child ≡ state_full_tunnel)
      ⊎ (resolve_state e child ≡ state_service_only)
      ⊎ (resolve_state e child ≡ state_full_access)
unfolding resolve_state
resolve_state-cases e child = ground arith

rules_of-ends :
    (ip state : Bytes)
    → (state ≡ state_paused)
      ⊎ (state ≡ state_full_tunnel)
      ⊎ (state ≡ state_service_only)
      ⊎ (state ≡ state_full_access)
    → (before : List Args) × (map (λ rule. rule.args) (rules_of ip state)
        ≡ before
          ++ from_args ip (if opens state then bytes "ACCEPT" else bytes "DROP")
            ∷ to_args ip (if opens state then bytes "ACCEPT" else bytes "DROP")
            ∷ [])
unfolding same
rules_of-ends ip state (inl h) = ([], simp h)
rules_of-ends ip state (inr (inl h)) = ([], simp h)
rules_of-ends ip state (inr (inr (inl h))) =
    (between_args ip gateway ∷ between_args gateway ip ∷ [], simp h)
rules_of-ends ip state (inr (inr (inr h))) = ([], simp h)

-- Whatever the profiles and the bundle say, a device gets rules that end in one for all it sends and
-- one for all it receives: both accept if its state is "full_tunnel" or "full_access", and both drop
-- in the other two states.
pub build_rules-resolve_state :
    (e : Enforcer) (child : Child) (ip : Bytes)
    → (before : List Args) × (map (λ rule. rule.args) (build_rules ip (resolve_state e child)).rules
        ≡ before
          ++ from_args ip (if opens (resolve_state e child) then bytes "ACCEPT" else bytes "DROP")
            ∷ to_args ip (if opens (resolve_state e child) then bytes "ACCEPT" else bytes "DROP")
            ∷ [])
unfolding build_rules
build_rules-resolve_state e child ip =
    rules_of-ends ip (resolve_state e child) (resolve_state-cases e child)
