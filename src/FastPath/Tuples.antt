-- ===== src/FastPath/Tuples.antt =====
-- A packet leaves the tuple of its connection alone in dpi/fast_path.py.
use python_deep_packet_inspe.Prelude.{
  ℕ, ◌≡◌, refl, ◌∙◌, Bool, true, false, arith, length, ◌==◌, if◌then◌else◌,
}
use python_deep_packet_inspe.Job.{PacketJob}
use python_deep_packet_inspe.Tracker.{Connection, update_connection, is_outbound}
use python_deep_packet_inspe.FastPath.{
  update_tcp_state, see_syn, establish, see_fin, see_close, track_packet,
}

see_syn-tuple : (flags : ℕ) (conn : Connection) → (see_syn flags conn).tuple ≡ conn.tuple
unfolding see_syn
see_syn-tuple flags conn = ground arith

establish-tuple : (flags : ℕ) (conn : Connection) → (establish flags conn).tuple ≡ conn.tuple
unfolding establish
establish-tuple flags conn = ground arith

see_fin-tuple : (flags : ℕ) (conn : Connection) → (see_fin flags conn).tuple ≡ conn.tuple
unfolding see_fin
see_fin-tuple flags conn = ground arith

see_close-tuple : (flags : ℕ) (conn : Connection) → (see_close flags conn).tuple ≡ conn.tuple
unfolding see_close
see_close-tuple flags conn = ground arith

update_tcp_state-tuple :
    (flags : ℕ) (conn : Connection) → (update_tcp_state flags conn).tuple ≡ conn.tuple
unfolding update_tcp_state
update_tcp_state-tuple flags conn =
    let c₁ = see_syn flags conn in
    let c₂ = establish flags c₁ in
    let c₃ = see_fin flags c₂ in
    see_close-tuple flags c₃
    ∙ see_fin-tuple flags c₂
    ∙ establish-tuple flags c₁
    ∙ see_syn-tuple flags conn

update_connection-tuple :
    (now size : ℕ) (outbound : Bool) (conn : Connection)
    → (update_connection now size outbound conn).tuple ≡ conn.tuple
unfolding update_connection
update_connection-tuple now size true conn = refl
update_connection-tuple now size false conn = refl

pub track_packet-tuple :
    (later : ℕ) (job : PacketJob) (conn : Connection)
    → (track_packet later job conn).tuple ≡ conn.tuple
unfolding track_packet
track_packet-tuple later job conn = by_protocol ((job.tuple).protocol == 6)
  where
    counted : Connection
    counted = update_connection later (length job.content) (is_outbound conn job.tuple) conn

    same : counted.tuple ≡ conn.tuple
    same = update_connection-tuple later (length job.content) (is_outbound conn job.tuple) conn

    by_protocol :
        (b : Bool)
        → (if b then update_tcp_state job.tcp_flags counted else counted).tuple ≡ conn.tuple
    by_protocol true = update_tcp_state-tuple job.tcp_flags counted ∙ same
    by_protocol false = same
