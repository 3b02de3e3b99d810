-- ===== src/Controlsync/Activity.antt =====
-- internal/controlsync/activity_writer.go: the resolver's block events, queued, batched and posted. A
-- step of the goroutine is a function; the rows that it posts are returned, and whether the cloud takes
-- them makes no difference to the writer. Go's lower-casing beyond ASCII is a parameter.
pub mod Rows
pub mod Queue
use safeswitch_router.Common.{
  ℕ, Bool, true, false, not, ◌&&◌, ◌||◌, Option, none, some, List, [], ◌∷◌, ◌++◌, Bytes, bytes,
  length, ltb, same, any, ◌==◌, if◌then◌else◌,
}
use safeswitch_router.Common.Text.{to_lower}
use safeswitch_router.Dns.Resolver.{BlockEvent}

abbrev pub activity_writer_buf_size : ℕ
activity_writer_buf_size = 512

-- The channel, and the batch of the goroutine.
pub record ActivityWriter : Type 0 where
  pub ch : List BlockEvent
  pub batch : List BlockEvent

unfoldable pub new_activity_writer : ActivityWriter
new_activity_writer = record { ch = []; batch = [] }

-- The event is dropped if the buffer is full.
unfoldable pub record_block : BlockEvent → ActivityWriter → ActivityWriter
record_block evt aw =
    if ltb (length aw.ch) activity_writer_buf_size then record aw { ch = aw.ch ++ evt ∷ [] } else aw

-- `case evt := <-aw.ch`
unfoldable pub receive : ActivityWriter → ActivityWriter
receive aw = elim aw.ch [ [] ↦ aw | evt ∷ ch ↦ record { ch = ch; batch = aw.batch ++ evt ∷ [] } ]

unfoldable pub drain : ActivityWriter → ActivityWriter
drain aw = record { ch = []; batch = aw.batch ++ aw.ch }

-- Fields with `omitempty` are `none` where they are left out.
pub record ActivityLogRow : Type 0 where
  pub family_id : Bytes
  pub event_type : Bytes
  pub title : Bytes
  pub domain_blocked : Bytes
  pub severity : Bytes
  pub threat_category : Option Bytes
  pub actor_kind : Bytes
  pub metadata_src_ip : Option Bytes

-- The keys of the map `seen`: a domain and an address.
abbrev pub Seen : Type 0
Seen = List (Bytes × Bytes)

abbrev pub is_seen : Bytes → Bytes → Seen → Bool
is_seen domain src_ip seen = any (λ k. same k.0 domain && same k.1 src_ip) seen

abbrev pub non_empty : Bytes → Option Bytes
non_empty s = if length s == 0 then none else some s

module _ (unicode_lower : Bytes → Bytes) where
  unfoldable pub row_for : Bytes → BlockEvent → ActivityLogRow
  row_for family_id evt =
      let domain = to_lower unicode_lower evt.domain in
      let category : Option Bytes =
        if length evt.category == 0 then none else some (to_lower unicode_lower evt.category) in
      record {
        family_id = family_id;
        event_type = bytes "dns_blocked";
        title = bytes "Blocked: " ++ domain;
        domain_blocked = domain;
        severity = bytes "info";
        threat_category = category;
        actor_kind = bytes "system";
        metadata_src_ip = non_empty evt.src_ip;
      }

  unfoldable pub rows_of : Bytes → Seen → List BlockEvent → List ActivityLogRow
  rows_of family_id seen [] = []
  rows_of family_id seen (evt ∷ batch) =
      let domain = to_lower unicode_lower evt.domain in
      let skipped = rows_of family_id seen batch in
      let rest = rows_of family_id ((domain, evt.src_ip) ∷ seen) batch in
      if length domain == 0
      then skipped
      else if is_seen domain evt.src_ip seen
      then skipped
      else row_for family_id evt ∷ rest

  -- The rows that are posted; `none` posts nothing.
  unfoldable pub flush : Bytes → List BlockEvent → Option (List ActivityLogRow)
  flush family_id batch =
      let rows = rows_of family_id [] batch in
      if length family_id == 0 then none else if length rows == 0 then none else some rows

  -- A tick of the goroutine's clock.
  unfoldable pub tick : Bytes → ActivityWriter → ActivityWriter × Option (List ActivityLogRow)
  tick family_id aw =
      let drained = drain aw in
      if length drained.batch == 0
      then (drained, none)
      else (record drained { batch = [] }, flush family_id drained.batch)

  -- The end of the context.
  unfoldable pub finish : Bytes → ActivityWriter → ActivityWriter × Option (List ActivityLogRow)
  finish family_id aw =
      let drained = drain aw in
      if ltb 0 (length drained.batch)
      then (drained, flush family_id drained.batch)
      else (drained, none)
