-- ===== src/Controlsync/Activity/Queue.antt =====
-- No event is lost on its way through internal/controlsync/activity_writer.go.
use safeswitch_router.Common.{
  ◌≤◌, ◌≡◌, refl, Bool, not, ◌&&◌, Option, none, some, List, [], ◌∷◌, ◌++◌, arith, Bytes, length,
  ltb, any, ◌==◌, length-append, if◌then◌else◌, Bool-cases, append_assoc, append-nil, inl, inr,
}
use safeswitch_router.Dns.Resolver.{BlockEvent}
use safeswitch_router.Controlsync.Activity.Rows.{is_empty, count, is_row_for, is_about, count-flush}
use safeswitch_router.Controlsync.Activity.{
  ActivityWriter, ActivityLogRow, activity_writer_buf_size, new_activity_writer, record_block,
  receive, drain, flush, tick, finish,
}

-- Is there room in the channel?
abbrev pub has_room : ActivityWriter → Bool
has_room aw = ltb (length aw.ch) activity_writer_buf_size

-- What a tick of a family posts, for the events of a batch: for each name and address together one
-- row if an event has them, the name is not empty and the family is known, and none if not.
abbrev pub Posts : (Bytes → Bytes) → Bytes → Option (List ActivityLogRow) → List BlockEvent → Type 0
Posts unicode_lower family_id sent batch =
    (domain src_ip : Bytes)
    → count (is_row_for domain src_ip) (elim sent [ none ↦ [] | some rows ↦ rows ]) ≡ (
        if not (length family_id == 0)
          && not (length domain == 0)
          && any (is_about unicode_lower family_id domain src_ip) batch
        then 1
        else 0)

-- The same for all ticks and their batches.
abbrev pub AllPosted :
    (Bytes → Bytes) → List (Bytes × Option (List ActivityLogRow)) → List (List BlockEvent) → Type 0
AllPosted unicode_lower [] [] = Unit {0}
AllPosted unicode_lower [] (b ∷ batches) = ⊥
AllPosted unicode_lower (p ∷ posted) [] = ⊥
AllPosted unicode_lower (p ∷ posted) (b ∷ batches) =
    Posts unicode_lower p.0 p.1 b × AllPosted unicode_lower posted batches

-- The events of the batches, the latest of which comes first.
abbrev pub joined : List (List BlockEvent) → List BlockEvent
joined [] = []
joined (b ∷ batches) = joined batches ++ b

-- The writers that steps lead to, with the events that were taken, in order, and with what each tick
-- posted for which family, the latest first.
pub data Reachable (unicode_lower : Bytes → Bytes)
    : List BlockEvent → List (Bytes × Option (List ActivityLogRow)) → ActivityWriter → Type 0 where
  made : Reachable unicode_lower [] [] new_activity_writer
  recorded :
      (evt : BlockEvent) (taken : List BlockEvent)
      (posted : List (Bytes × Option (List ActivityLogRow))) (aw : ActivityWriter)
      → Reachable unicode_lower taken posted aw
      → Reachable unicode_lower
          (if has_room aw then taken ++ evt ∷ [] else taken)
          posted
          (record_block evt aw)
  received :
      (taken : List BlockEvent) (posted : List (Bytes × Option (List ActivityLogRow)))
      (aw : ActivityWriter)
      → Reachable unicode_lower taken posted aw
      → Reachable unicode_lower taken posted (receive aw)
  ticked :
      (family_id : Bytes) (taken : List BlockEvent)
      (posted : List (Bytes × Option (List ActivityLogRow))) (aw : ActivityWriter)
      → Reachable unicode_lower taken posted aw
      → Reachable unicode_lower taken
          ((family_id, (tick unicode_lower family_id aw).1) ∷ posted)
          (tick unicode_lower family_id aw).0

abbrev IsKept : List BlockEvent → List BlockEvent → ActivityWriter → Type 0
IsKept taken flushed aw = (taken ≡ flushed ++ (aw.batch ++ aw.ch)) × (length aw.ch ≤ 512)

record_block-IsKept :
    (evt : BlockEvent) (taken flushed : List BlockEvent) (aw : ActivityWriter)
    → IsKept taken flushed aw
    → IsKept (if has_room aw then taken ++ evt ∷ [] else taken) flushed (record_block evt aw)
unfolding record_block
record_block-IsKept evt taken flushed aw (e, l) = elim (Bool-cases (has_room aw)) [
  | inl r ↦ (
    ground (
      arith,
      e,
      r,
      append_assoc flushed (aw.batch ++ aw.ch) (evt ∷ []),
      append_assoc aw.batch aw.ch (evt ∷ []),
    ),
    ground (arith, r, length-append aw.ch (evt ∷ [])),
  )
  | inr r ↦ (ground (arith, e, r), ground (arith, l, r))
]

receive-IsKept :
    (taken flushed batch ch : List BlockEvent)
    → IsKept taken flushed (record { ch = ch; batch = batch })
    → IsKept taken flushed (receive (record { ch = ch; batch = batch }))
unfolding receive
receive-IsKept taken flushed batch [] v = v
receive-IsKept taken flushed batch (evt ∷ ch) (e, l) =
    (ground (arith, e, append_assoc batch (evt ∷ []) ch), omega (arith, l))

tick-IsKept :
    (unicode_lower : Bytes → Bytes) (family_id : Bytes) (taken flushed : List BlockEvent)
    (aw : ActivityWriter)
    → IsKept taken flushed aw
    → IsKept taken (flushed ++ (aw.batch ++ aw.ch)) (tick unicode_lower family_id aw).0
unfolding tick drain
tick-IsKept unicode_lower family_id taken flushed aw (e, l) =
    let drained = aw.batch ++ aw.ch in
    elim (Bool-cases (length drained == 0)) [
      | inl n ↦ (ground (arith, e, n, is_empty drained n, append-nil flushed), ground (arith, n))
      | inr n ↦ (ground (arith, e, n, append-nil (flushed ++ drained)), ground (arith, n))
    ]

flush-Posts :
    (unicode_lower : Bytes → Bytes) (family_id : Bytes) (batch : List BlockEvent)
    → Posts unicode_lower family_id (flush unicode_lower family_id batch) batch
flush-Posts unicode_lower family_id batch domain src_ip =
    count-flush unicode_lower family_id domain src_ip batch

tick-Posts :
    (unicode_lower : Bytes → Bytes) (family_id : Bytes) (aw : ActivityWriter)
    → Posts unicode_lower family_id (tick unicode_lower family_id aw).1 (aw.batch ++ aw.ch)
unfolding tick drain
tick-Posts unicode_lower family_id aw domain src_ip =
    let waiting = aw.batch ++ aw.ch in
    elim (Bool-cases (length waiting == 0)) [
      | inl n ↦ rw (n, is_empty waiting n) (ground arith)
      | inr n ↦ rw n (flush-Posts unicode_lower family_id waiting domain src_ip)
    ]

-- The end of the context posts all that is left.
finish-Posts :
    (unicode_lower : Bytes → Bytes) (family_id : Bytes) (aw : ActivityWriter)
    → Posts unicode_lower family_id (finish unicode_lower family_id aw).1 (aw.batch ++ aw.ch)
unfolding finish drain
finish-Posts unicode_lower family_id aw domain src_ip =
    let waiting = aw.batch ++ aw.ch in
    elim (Bool-cases (ltb 0 (length waiting))) [
      | inl n ↦ rw n (flush-Posts unicode_lower family_id waiting domain src_ip)
      | inr n ↦ rw (n, is_empty waiting (ground (arith, n))) (ground arith)
    ]

-- The batches of the ticks so far, and the events that are still in the writer.
abbrev pub Accounts :
    (Bytes → Bytes)
    → List BlockEvent
    → List (Bytes × Option (List ActivityLogRow))
    → ActivityWriter
    → Type 0
Accounts unicode_lower taken posted aw =
    (batches : List (List BlockEvent)) × AllPosted unicode_lower posted batches
    × (taken ≡ joined batches ++ (aw.batch ++ aw.ch))
    × (length aw.ch ≤ 512)

taken-Accounts :
    (unicode_lower : Bytes → Bytes) (taken : List BlockEvent)
    (posted : List (Bytes × Option (List ActivityLogRow))) (aw : ActivityWriter)
    → Reachable unicode_lower taken posted aw
    → Accounts unicode_lower taken posted aw
taken-Accounts unicode_lower _ _ _ made = unfold new_activity_writer in ([], tt, refl, omega arith)
taken-Accounts unicode_lower _ _ _ (recorded evt taken posted aw v) =
    let (batches, sent, kept, room) = taken-Accounts unicode_lower taken posted aw v in
    let (kept_on, bounded) = record_block-IsKept evt taken (joined batches) aw (kept, room) in
    (batches, sent, kept_on, bounded)
taken-Accounts unicode_lower _ _ _ (received taken posted aw v) =
    let (batches, sent, kept, room) = taken-Accounts unicode_lower taken posted aw v in
    let (kept_on, bounded) = receive-IsKept taken (joined batches) aw.batch aw.ch (kept, room) in
    (batches, sent, kept_on, bounded)
taken-Accounts unicode_lower _ _ _ (ticked family_id taken posted aw v) =
    let (batches, sent, kept, room) = taken-Accounts unicode_lower taken posted aw v in
    let (kept_on, bounded) =
      tick-IsKept unicode_lower family_id taken (joined batches) aw (kept, room) in
    ((aw.batch ++ aw.ch) ∷ batches, (tick-Posts unicode_lower family_id aw, sent), kept_on, bounded)

-- In every state of the writer the events that were taken, each once and in their order, are the
-- batches of the ticks so far, then the batch at hand, then the channel, which has at most 512. Each
-- tick posted for its batch one row for each name and address together that an event of it has, if
-- the name is not empty and the family known, and no other row; and the end of the context would do
-- the same for all that is left.
pub taken-Reachable :
    (unicode_lower : Bytes → Bytes) (family_id : Bytes) (taken : List BlockEvent)
    (posted : List (Bytes × Option (List ActivityLogRow))) (aw : ActivityWriter)
    → Reachable unicode_lower taken posted aw
    → Accounts unicode_lower taken posted aw
      × Posts unicode_lower family_id (finish unicode_lower family_id aw).1 (aw.batch ++ aw.ch)
taken-Reachable unicode_lower family_id taken posted aw v =
    (taken-Accounts unicode_lower taken posted aw v, finish-Posts unicode_lower family_id aw)
