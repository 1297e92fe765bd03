-- ===== src/Tracker/Owner.antt =====
-- Under which tuple the connection of a packet stands in a `ConnectionTracker` of
-- dpi/connection_tracker.py.
use python_deep_packet_inspe.Prelude.{ℕ, ◌≡◌, refl, sym, ap, ◌∙◌, subst, Option, none, some}
use python_deep_packet_inspe.Flow.{FiveTuple, reverse}
use python_deep_packet_inspe.Tracker.{
  Connection, Tracker, find, new_connection, create, get_or_create_connection,
}
use python_deep_packet_inspe.Tracker.Keys.{IsKeyed, find-tuple}
use python_deep_packet_inspe.Tracker.Flows.{found, found_back, created}

-- A conversation that the table has keeps the tuple of its first packet, in either direction; one
-- that it does not have begins with the tuple of the packet.
pub data IsOwner (t : FiveTuple) (tracker : Tracker) : FiveTuple → Type 0 where
  known : {conn : Connection} → find t tracker.connections ≡ some conn → IsOwner t tracker t
  known_back :
      {conn : Connection}
      → find t tracker.connections ≡ none
      → find (reverse t) tracker.connections ≡ some conn
      → IsOwner t tracker (reverse t)
  fresh :
      find t tracker.connections ≡ none
      → find (reverse t) tracker.connections ≡ none
      → IsOwner t tracker t

pub get_or_create_connection-IsOwner :
    (now : ℕ) (t : FiveTuple) (tracker : Tracker)
    → IsKeyed tracker.connections
    → IsOwner t tracker (get_or_create_connection now t tracker).1.tuple
unfolding create new_connection
get_or_create_connection-IsOwner now t tracker keyed =
    by_entry (find t tracker.connections) (find (reverse t) tracker.connections) refl refl
  where
    by_entry :
        (o o' : Option Connection)
        → find t tracker.connections ≡ o
        → find (reverse t) tracker.connections ≡ o'
        → IsOwner t tracker (get_or_create_connection now t tracker).1.tuple
    by_entry (some conn) o' e e' =
        subst (IsOwner t tracker)
          (sym (
            ap (λ r. r.1.tuple) (found now t tracker conn e)
            ∙ find-tuple t conn tracker.connections keyed e))
          (known e)
    by_entry none (some conn) e e' =
        subst (IsOwner t tracker)
          (sym (
            ap (λ r. r.1.tuple) (found_back now t tracker conn e e')
            ∙ find-tuple (reverse t) conn tracker.connections keyed e'))
          (known_back e e')
    by_entry none none e e' =
        subst (IsOwner t tracker) (sym (ap (λ r. r.1.tuple) (created now t tracker e e')))
          (fresh e e')
