-- ===== src/Tests/Controlsync.antt =====
-- internal/controlsync on small inputs.
use safeswitch_router.Common.{Option, List, [], ◌∷◌, ◌++◌, Bytes, bytes}
use safeswitch_router.Dns.Resolver.{BlockEvent}
use safeswitch_router.Controlsync.Activity.{
  ActivityWriter, ActivityLogRow, new_activity_writer, record_block, receive, drain, tick, finish,
}
use safeswitch_router.Controlsync.Activity.Queue.{
  Posts, Accounts, made, recorded, received, ticked, taken-Reachable,
}

abbrev unicode : Bytes → Bytes
unicode s = s

abbrev event : Bytes → Bytes → BlockEvent
event domain ip = record { domain = domain; src_ip = ip; category = bytes "ads" }

abbrev first : BlockEvent
first = event (bytes "a.com") []

abbrev second : BlockEvent
second = event (bytes "b.com") []

-- A tick posts the first event, the second is in the batch behind it.
abbrev begun : ActivityWriter
begun = record_block first new_activity_writer

abbrev after_tick : ActivityWriter × Option (List ActivityLogRow)
after_tick = tick unicode (bytes "f1") begun

abbrev writer : ActivityWriter
writer = receive (record_block second after_tick.0)

taken-Reachable_example :
    Accounts unicode (first ∷ second ∷ []) ((bytes "f1", after_tick.1) ∷ []) writer
    × Posts unicode (bytes "f1") (finish unicode (bytes "f1") writer).1 (writer.batch ++ writer.ch)
unfolding record_block new_activity_writer tick drain
taken-Reachable_example =
    taken-Reachable unicode (bytes "f1") (first ∷ second ∷ []) ((bytes "f1", after_tick.1) ∷ [])
      writer
      (received (first ∷ second ∷ []) ((bytes "f1", after_tick.1) ∷ [])
        (record_block second after_tick.0)
        (recorded second (first ∷ []) ((bytes "f1", after_tick.1) ∷ []) after_tick.0 (
          ticked (bytes "f1") (first ∷ []) [] begun
            (recorded first [] [] new_activity_writer made))))
