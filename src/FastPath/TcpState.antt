-- ===== src/FastPath/TcpState.antt =====
-- The state machine of a connection, `_update_tcp_state` of dpi/fast_path.py.
use python_deep_packet_inspe.Prelude.{
  ℕ, ◌≡◌, Bool, true, false, not, ◌&&◌, ◌||◌, arith, if◌then◌else◌,
}
use python_deep_packet_inspe.Tracker.{new, established, closed, Connection}
use python_deep_packet_inspe.FastPath.{
  has_flag, see_syn, establish, see_fin, see_close, update_tcp_state,
}

module _ (flags : ℕ) (conn : Connection) where
  see_syn-fields :
      ((see_syn flags conn).state ≡ conn.state)
      × ((see_syn flags conn).fin_seen ≡ conn.fin_seen)
      × ((see_syn flags conn).syn_seen
          ≡ (conn.syn_seen || has_flag flags 0x02 && not (has_flag flags 0x10)))
      × ((see_syn flags conn).syn_ack_seen
          ≡ (conn.syn_ack_seen || has_flag flags 0x02 && has_flag flags 0x10))
  unfolding see_syn
  see_syn-fields = ground arith

  establish-state : (establish flags conn).state ≡ (
      if conn.syn_seen && conn.syn_ack_seen && has_flag flags 0x10
      then elim conn.state [ new ↦ established | s ↦ s ]
      else conn.state)
  unfolding establish
  establish-state = ground arith

  establish-fields :
      ((establish flags conn).fin_seen ≡ conn.fin_seen)
      × ((establish flags conn).syn_seen ≡ conn.syn_seen)
      × ((establish flags conn).syn_ack_seen ≡ conn.syn_ack_seen)
  unfolding establish
  establish-fields = ground arith

  see_fin-fields :
      ((see_fin flags conn).state ≡ conn.state)
      × ((see_fin flags conn).fin_seen ≡ (conn.fin_seen || has_flag flags 0x01))
      × ((see_fin flags conn).syn_seen ≡ conn.syn_seen)
      × ((see_fin flags conn).syn_ack_seen ≡ conn.syn_ack_seen)
  unfolding see_fin
  see_fin-fields = ground arith

  see_close-fields :
      ((see_close flags conn).state ≡ (
        if has_flag flags 0x04 || conn.fin_seen && has_flag flags 0x10 then closed else conn.state))
      × ((see_close flags conn).fin_seen ≡ conn.fin_seen)
      × ((see_close flags conn).syn_seen ≡ conn.syn_seen)
      × ((see_close flags conn).syn_ack_seen ≡ conn.syn_ack_seen)
  unfolding see_close
  see_close-fields = ground arith

-- Whether the packet ends the connection.
abbrev pub ends : ℕ → Connection → Bool
ends flags conn =
    has_flag flags 0x04 || ((conn.fin_seen || has_flag flags 0x01) && has_flag flags 0x10)

-- Whether the packet is an ACK after both halves of the handshake were seen, this packet included.
abbrev pub shakes : ℕ → Connection → Bool
shakes flags conn =
    has_flag flags 0x10 && (conn.syn_ack_seen || has_flag flags 0x02) && conn.syn_seen

-- The state after a packet: CLOSED when the packet has RST, or an ACK once FIN was seen; ESTABLISHED
-- when it was NEW and the packet is an ACK with both halves of the handshake seen; else as it was.
-- So RST also takes a connection out of BLOCKED, and a later payload is inspected again.
pub update_tcp_state-state :
    (flags : ℕ) (conn : Connection)
    → (update_tcp_state flags conn).state ≡ (
        if ends flags conn
        then closed
        else if shakes flags conn
        then elim conn.state [ new ↦ established | s ↦ s ]
        else conn.state)
unfolding update_tcp_state
update_tcp_state-state flags conn =
    let c₁ = see_syn flags conn in
    let c₂ = establish flags c₁ in
    let c₃ = see_fin flags c₂ in
    grind (
      arith,
      see_syn-fields flags conn,
      establish-state flags c₁,
      establish-fields flags c₁,
      see_fin-fields flags c₂,
      see_close-fields flags c₃,
    )

module _ (flags : ℕ) (conn : Connection) (open' : conn.fin_seen ≡ false)
    (no_reset : has_flag flags 0x04 ≡ false) (no_fin : has_flag flags 0x01 ≡ false) where
  -- A packet without FIN and RST.
  quiet :
      ((update_tcp_state flags conn).fin_seen ≡ false)
      × ((update_tcp_state flags conn).syn_seen
          ≡ (conn.syn_seen || has_flag flags 0x02 && not (has_flag flags 0x10)))
      × ((update_tcp_state flags conn).syn_ack_seen
          ≡ (conn.syn_ack_seen || has_flag flags 0x02 && has_flag flags 0x10))
  unfolding update_tcp_state
  quiet =
      let c₁ = see_syn flags conn in
      let c₂ = establish flags c₁ in
      let c₃ = see_fin flags c₂ in
      grind (
        arith,
        see_syn-fields flags conn,
        establish-fields flags c₁,
        see_fin-fields flags c₂,
        see_close-fields flags c₃,
      )

  quiet-state :
      (update_tcp_state flags conn).state
      ≡ (if shakes flags conn then elim conn.state [ new ↦ established | s ↦ s ] else conn.state)
  quiet-state = grind (arith, update_tcp_state-state flags conn)

-- Three packets without FIN and RST, a SYN, a SYN with ACK and an ACK, bring a new connection to
-- ESTABLISHED.
pub handshake-established :
    (conn : Connection) (syn syn_ack ack : ℕ)
    → conn.state ≡ new
    → conn.fin_seen ≡ false
    → (has_flag syn 0x02 ≡ true)
      × (has_flag syn 0x10 ≡ false)
      × (has_flag syn 0x04 ≡ false)
      × (has_flag syn 0x01 ≡ false)
    → (has_flag syn_ack 0x02 ≡ true)
      × (has_flag syn_ack 0x10 ≡ true)
      × (has_flag syn_ack 0x04 ≡ false)
      × (has_flag syn_ack 0x01 ≡ false)
    → (has_flag ack 0x10 ≡ true) × (has_flag ack 0x04 ≡ false) × (has_flag ack 0x01 ≡ false)
    → (update_tcp_state ack (update_tcp_state syn_ack (update_tcp_state syn conn))).state
      ≡ established
handshake-established conn syn syn_ack ack h f (s₁, s₂, s₃, s₄) (a₁, a₂, a₃, a₄) (c₁, c₂, c₃) =
    let conn₁ = update_tcp_state syn conn in
    let conn₂ = update_tcp_state syn_ack conn₁ in
    let q₁ = quiet syn conn f s₃ s₄ in
    let q₂ = quiet syn_ack conn₁ q₁.0 a₃ a₄ in
    grind (
      arith,
      quiet-state syn conn f s₃ s₄,
      quiet-state syn_ack conn₁ q₁.0 a₃ a₄,
      quiet-state ack conn₂ q₂.0 c₂ c₃,
      q₁,
      q₂,
    )
