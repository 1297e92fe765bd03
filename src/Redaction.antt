-- ===== src/Redaction.antt =====
-- The sanitization policy of ai/redaction.py. A string is its list of code points. What Python's
-- `str` knows of them, and what `ipaddress` of the standard library says of an address, are
-- parameters; its text of an address is the dotted quad.
pub mod Ascii
pub mod Letters
pub mod Table
pub mod Strip
pub mod Hostname
pub mod Labels
use python_deep_packet_inspe.Prelude.{
  ℕ, zero, suc, ◌+◌, ◌-◌, ◌/◌, ◌%◌, ◌^◌, ◌<◌, Bool, ◌&&◌, ◌||◌, Option, none, some, List, [], ◌∷◌,
  ◌++◌, length, take, leb, ◌==◌, if◌then◌else◌,
}
use python_deep_packet_inspe.Prelude.Strings.{codes}
use python_deep_packet_inspe.Text.{same}
use python_deep_packet_inspe.Rules.{ip_to_string}

abbrev pub max_hostname_length : ℕ
max_hostname_length = 253

-- The letters, the digits and `.-_`.
unfoldable pub is_separator : ℕ → Bool
is_separator c = c == b'.' || c == b'-' || c == b'_'

unfoldable pub is_allowed : ℕ → Bool
unfolding is_separator
is_allowed c = leb b'a' c && leb c b'z' || leb b'0' c && leb c b'9' || is_separator c

-- What the `str` of Python knows of the characters of Unicode: `str.lower` of a string, and what
-- `str.strip` takes for white space.
pub record Unicode : Type 0 where
  pub lower_case : List ℕ → List ℕ
  pub is_space : ℕ → Bool

unfoldable pub strip_left : (ℕ → Bool) → List ℕ → List ℕ
strip_left p [] = []
strip_left p (c ∷ s) = if p c then strip_left p s else c ∷ s

unfoldable pub strip_right : (ℕ → Bool) → List ℕ → List ℕ
strip_right p [] = []
strip_right p (c ∷ s) =
    let rest = strip_right p s in if p c && length rest == 0 then [] else c ∷ rest

-- `s.strip(chars)`.
unfoldable pub strip : (ℕ → Bool) → List ℕ → List ℕ
unfolding strip_left strip_right
strip p s = strip_right p (strip_left p s)

-- `_HOSTNAME_ALLOWED.sub("", s)`.
unfoldable pub keep_allowed : List ℕ → List ℕ
unfolding is_allowed
keep_allowed [] = []
keep_allowed (c ∷ s) = if is_allowed c then c ∷ keep_allowed s else keep_allowed s

abbrev pub redacted_hostname : List ℕ
redacted_hostname = codes "<invalid-hostname>"

unfoldable pub sanitize_hostname : Unicode → Option (List ℕ) → Option (List ℕ)
unfolding strip keep_allowed is_separator
sanitize_hostname unicode none = none
sanitize_hostname unicode (some name) =
    let lowered = strip unicode.is_space (unicode.lower_case (take max_hostname_length name)) in
    if length lowered == 0
    then none
    else let cleaned = strip is_separator (keep_allowed lowered) in
      if length cleaned == 0 then some redacted_hostname else some cleaned

pub record HostPseudonymiser : Type 0 where
  pub labels : List (List ℕ × List ℕ)
  pub next : ℕ

abbrev pub new_pseudonymiser : HostPseudonymiser
new_pseudonymiser = record { labels = []; next = 0 }

-- `self._labels.get(address)`.
unfoldable pub get_label : List ℕ → List (List ℕ × List ℕ) → Option (List ℕ)
unfolding same
get_label address [] = none
get_label address ((other, label) ∷ labels) =
    if same address other then some label else get_label address labels

-- The loop over the letters. Each round divides the number, so it has fewer rounds than it.
unfoldable pub letters_loop : ℕ → ℕ → List ℕ → List ℕ
letters_loop zero n letters = letters
letters_loop (suc fuel) n letters =
    let grown = (b'a' + n % 26) ∷ letters in
    let rest = letters_loop fuel (n / 26 - 1) grown in if n / 26 == 0 then grown else rest

unfoldable pub host_label : ℕ → List ℕ
unfolding letters_loop
host_label n = codes "host_" ++ letters_loop (suc n) n []

unfoldable pub label_for : List ℕ → HostPseudonymiser → HostPseudonymiser × List ℕ
unfolding get_label host_label
label_for address p = elim (get_label address p.labels) [
  | some existing ↦ (p, existing)
  | none ↦
      let label = host_label p.next in
      (record { labels = p.labels ++ (address, label) ∷ []; next = p.next + 1 }, label)
]

-- `NONE`, `REDACT_PRIVATE` and `FULL`.
pub data IpRedactionMode : Type 0 where
  no_addresses redact_private full : IpRedactionMode

-- The octets of an address, the first one lowest in the number.
unfoldable pub wire_order_to_ipv4 : ℕ → List ℕ
wire_order_to_ipv4 value =
    value % 2 ^ 8 ∷ value / 2 ^ 8 % 2 ^ 8 ∷ value / 2 ^ 16 % 2 ^ 8 ∷ value / 2 ^ 24 % 2 ^ 8 ∷ []

-- The properties of `ipaddress.IPv4Address` that the policy reads.
pub record AddressKinds : Type 0 where
  pub is_private : List ℕ → Bool
  pub is_loopback : List ℕ → Bool
  pub is_link_local : List ℕ → Bool
  pub is_multicast : List ℕ → Bool
  pub is_unspecified : List ℕ → Bool

unfoldable pub is_internal : AddressKinds → ℕ → Bool
unfolding wire_order_to_ipv4
is_internal kinds value =
    let address = wire_order_to_ipv4 value in
    kinds.is_private address
    || kinds.is_loopback address
    || kinds.is_link_local address
    || kinds.is_multicast address
    || kinds.is_unspecified address

unfoldable pub redact_ip :
    AddressKinds → ℕ → IpRedactionMode → HostPseudonymiser → HostPseudonymiser × Option (List ℕ)
unfolding is_internal label_for ip_to_string
redact_ip kinds value no_addresses p = (p, none)
redact_ip kinds value full p = (p, some (ip_to_string value))
redact_ip kinds value redact_private p =
    if is_internal kinds value
    then (let (p', label) = label_for (ip_to_string value) p in (p', some label))
    else (p, some (ip_to_string value))
