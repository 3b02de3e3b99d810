-- ===== src/Relay/Broker/Nodes.antt =====
-- Nodes that leave internal/relay/broker.go.
use safeswitch_router.Common.{
  ℕ, ◌≡◌, refl, true, Option, none, some, List, [], ◌∷◌, ◌++◌, arith, Bytes, same, Bool-cases,
  Option-cases, ◌⊎◌, inl, inr,
}
use safeswitch_router.Relay.Broker.{
  Run, ok, panic, Channels, set_channel, close, Conn, Session, Broker, is_rooted, close_dev,
  close_session, close_rooted, unregister_node,
}

pub Run-cases : {A : Type 0} (m : Run A) → (m ≡ panic) ⊎ ((a : A) × (m ≡ ok a))
Run-cases panic = inl refl
Run-cases (ok a) = inr (a, refl)

-- The channel `c` is closed.
abbrev pub IsClosed : ℕ → Channels → Type 0
IsClosed c cs = (cs c).closed ≡ true

close-IsClosed :
    (c d : ℕ) (cs cs' : Channels) → close c cs ≡ ok cs' → IsClosed d cs → IsClosed d cs'
unfolding close set_channel
close-IsClosed c d cs cs' e h = ground (arith, e, h)

close_self : (c : ℕ) (cs cs' : Channels) → close c cs ≡ ok cs' → IsClosed c cs'
unfolding close set_channel
close_self c cs cs' e = ground (arith, e)

close_again : (c : ℕ) (cs : Channels) → IsClosed c cs → close c cs ≡ panic
unfolding close
close_again c cs h = ground (arith, h)

dev-IsClosed :
    (o : Option Conn) (d : ℕ) (cs cs' : Channels)
    → close_dev o cs ≡ ok cs'
    → IsClosed d cs
    → IsClosed d cs'
unfolding close_dev
dev-IsClosed none d cs cs' e h = ground (arith, e, h)
dev-IsClosed (some c) d cs cs' e h = close-IsClosed c.send d cs cs' e h

close_session-IsClosed :
    (s : Session) (d : ℕ) (cs cs' : Channels)
    → close_session s cs ≡ ok cs'
    → IsClosed d cs
    → IsClosed d cs'
unfolding close_session
close_session-IsClosed s d cs cs' e h = elim (Option-cases s.node_conn) [
  | inl f ↦ ground (arith, e, h, f)
  | inr (c, f) ↦ elim (Run-cases (close c.send cs)) [
    | inl p ↦ absurd (ground (arith, e, f, p))
    | inr (first, p) ↦ ground (
      arith,
      e,
      f,
      p,
      h,
      close-IsClosed c.send d cs first p h,
      dev-IsClosed s.dev_conn d first cs',
    )
  ]
]

-- A session cannot be closed when its node's channel is.
close_session_again :
    (s : Session) (c : Conn) (cs : Channels)
    → s.node_conn ≡ some c
    → IsClosed c.send cs
    → close_session s cs ≡ panic
unfolding close_session
close_session_again s c cs e h = rw (e, close_again c.send cs h) refl

-- Once it is closed its node's channel is.
close_session_self :
    (s : Session) (c : Conn) (cs cs' : Channels)
    → s.node_conn ≡ some c
    → close_session s cs ≡ ok cs'
    → IsClosed c.send cs'
unfolding close_session
close_session_self s c cs cs' e f = elim (Run-cases (close c.send cs)) [
  | inl p ↦ absurd (ground (arith, e, f, p))
  | inr (first, p) ↦
      ground
        (arith, e, f, p, close_self c.send cs first p, dev-IsClosed s.dev_conn c.send first cs')
]

module _ (node_id : Bytes) where
  -- A walk panics in what follows if it panics behind the head.
  close_rooted_head :
      (t : Session) (sessions : List Session) (cs : Channels)
      → ((cs' : Channels)
          → ((d : ℕ) → IsClosed d cs → IsClosed d cs')
          → close_rooted node_id sessions cs' ≡ panic)
      → close_rooted node_id (t ∷ sessions) cs ≡ panic
  unfolding close_rooted
  close_rooted_head t sessions cs h = elim (Bool-cases (is_rooted node_id t)) [
    | inl r ↦ elim (Run-cases (close_session t cs)) [
      | inl p ↦ ground (arith, r, p)
      | inr (cs', p) ↦ ground (arith, r, p, h cs' (λ d. close_session-IsClosed t d cs cs' p))
    ]
    | inr r ↦ ground (arith, r, h cs (λ d k. k))
  ]

  close_rooted-closed :
      (before after : List Session) (s : Session) (c : Conn) (cs : Channels)
      → s.node_conn ≡ some c
      → same c.node_id node_id ≡ true
      → IsClosed c.send cs
      → close_rooted node_id (before ++ s ∷ after) cs ≡ panic
  unfolding close_rooted is_rooted
  close_rooted-closed [] after s c cs e r h = ground (arith, e, r, close_session_again s c cs e h)
  close_rooted-closed (t ∷ before) after s c cs e r h =
      close_rooted_head t (before ++ s ∷ after) cs
        (λ cs' keep. close_rooted-closed before after s c cs' e r (keep c.send h))

  close_rooted-twice :
      (before between after : List Session) (s t : Session) (c : Conn) (cs : Channels)
      → s.node_conn ≡ some c
      → t.node_conn ≡ some c
      → same c.node_id node_id ≡ true
      → close_rooted node_id (before ++ s ∷ (between ++ t ∷ after)) cs ≡ panic
  unfolding close_rooted is_rooted
  close_rooted-twice [] between after s t c cs e f r = elim (Run-cases (close_session s cs)) [
    | inl p ↦ ground (arith, e, r, p)
    | inr (cs', p) ↦ ground (
      arith,
      e,
      r,
      p,
      close_rooted-closed between after t c cs' f r (close_session_self s c cs cs' e p),
    )
  ]
  close_rooted-twice (u ∷ before) between after s t c cs e f r =
      close_rooted_head u (before ++ s ∷ (between ++ t ∷ after)) cs
        (λ cs' keep. close_rooted-twice before between after s t c cs' e f r)

-- If two of the broker's sessions stand on one connection of a node, the node's leaving panics: its
-- channel is closed once for each of them.
pub unregister_node-twice :
    (node_id : Bytes) (b : Broker) (before between after : List Session) (s t : Session) (c : Conn)
    → b.sessions ≡ before ++ s ∷ (between ++ t ∷ after)
    → s.node_conn ≡ some c
    → t.node_conn ≡ some c
    → same c.node_id node_id ≡ true
    → unregister_node node_id b ≡ panic
unfolding unregister_node
unregister_node-twice node_id b before between after s t c e f g r =
    rw (e, close_rooted-twice node_id before between after s t c b.channels f g r) refl
