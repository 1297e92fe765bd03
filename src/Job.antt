-- ===== src/Job.antt =====
-- `PacketJob` of dpi/types.py: a packet on its way between the threads. The offsets index into
-- `content` (the field `data`). `tuple` may be `None` in the source until it is set; every job that
-- `create_packet_job` builds has it set, and the model starts there. A `memoryview` is the bytes
-- that it shows.
use python_deep_packet_inspe.Prelude.{ℕ, Option, none, some, List, take, drop}
use python_deep_packet_inspe.Flow.{FiveTuple}

pub record PacketJob : Type 0 where
  pub packet_id : ℕ
  pub tuple : FiveTuple
  pub content : List ℕ
  pub eth_offset : ℕ
  pub ip_offset : ℕ
  pub transport_offset : ℕ
  pub payload_offset : ℕ
  pub payload_length : ℕ
  pub tcp_flags : ℕ
  pub payload_data : Option (List ℕ)
  pub ts_sec : ℕ
  pub ts_usec : ℕ

unfoldable pub get_payload : PacketJob → List ℕ
get_payload job = elim job.payload_data [
  | some payload ↦ payload
  | none ↦ take job.payload_length (drop job.payload_offset job.content)
]
