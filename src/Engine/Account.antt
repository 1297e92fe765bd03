-- ===== src/Engine/Account.antt =====
-- What the reader thread of dpi/dpi_engine.py has sent, described by its jobs.
use python_deep_packet_inspe.Prelude.{
  get_elem?, ◌==◌, if◌then◌else◌, zero, suc, true, ◌||◌, ℕ, All, List, [], ◌∷◌, length, map, some,
  ◌+◌, ◌≡◌, ◌||◌, zero, ◌%◌, arith,
}
use python_deep_packet_inspe.Flow.{uint64_mod, flow_hash}
use python_deep_packet_inspe.Job.{PacketJob}
use python_deep_packet_inspe.Parser.{ParsedPacket}
use python_deep_packet_inspe.Balance.{LoadBalancer}
use python_deep_packet_inspe.FastPath.Safety.{FitsPayload}
use python_deep_packet_inspe.Engine.{is_flow_packet, Sent, suc, true}

-- The numbers below `n`, the largest first.
unfoldable pub countdown : ℕ → List ℕ
countdown zero = []
countdown (suc n) = n ∷ countdown n

unfoldable pub sizes : List PacketJob → ℕ
sizes [] = 0
sizes (job ∷ jobs) = sizes jobs + length job.content

-- How many jobs have a protocol.
unfoldable pub with_protocol : ℕ → List PacketJob → ℕ
with_protocol protocol [] = 0
with_protocol protocol (job ∷ jobs) =
    if job.tuple.protocol == protocol
    then with_protocol protocol jobs + 1
    else with_protocol protocol jobs

-- Each job goes to the balancer that its flow hash picks.
abbrev pub AreRouted : List LoadBalancer → List PacketJob → List ℕ → Type 0
AreRouted lbs [] [] = Unit
AreRouted lbs (job ∷ jobs) (lb_id ∷ lb_ids) =
    ((lb : LoadBalancer) × (get_elem? lbs (flow_hash job.tuple % length lbs) ≡ some lb)
      × (lb.lb_id ≡ lb_id))
    × AreRouted lbs jobs lb_ids
AreRouted lbs jobs lb_ids = ⊥

-- What a reader that began with fresh counters has sent, after the header `output`.
pub record IsSent (lbs : List LoadBalancer) (output : List ℕ) (sent : Sent) : Type 0 where
  pub header : sent.output ≡ output
  pub fits : All FitsPayload sent.jobs
  pub numbered : map (λ (job : PacketJob). job.packet_id) sent.jobs ≡ countdown sent.packet_id
  pub routed : AreRouted lbs sent.jobs sent.lb_ids
  pub total_packets : sent.stats.total_packets ≡ sent.packet_id % uint64_mod
  pub total_bytes : sent.stats.total_bytes ≡ sizes sent.jobs % uint64_mod
  pub tcp_packets : sent.stats.tcp_packets ≡ with_protocol 6 sent.jobs % uint64_mod
  pub udp_packets : sent.stats.udp_packets ≡ with_protocol 17 sent.jobs % uint64_mod
  pub all_transports : with_protocol 6 sent.jobs + with_protocol 17 sent.jobs ≡ length sent.jobs

pub has_transport :
    (parsed : ParsedPacket) → is_flow_packet parsed ≡ true → parsed.has_tcp || parsed.has_udp ≡ true
unfolding is_flow_packet
has_transport parsed f = ground (arith, f)
