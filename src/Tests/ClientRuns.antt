-- ===== src/Tests/ClientRuns.antt =====
-- A run of the enclave's client.
use flare_hack.Prelude.{
  ◌≡◌, refl, Option, none, some, [], ◌∷◌, arith, ◌==◌, if◌then◌else◌, pos, Bytes, codes,
}
use flare_hack.Json.{Json, finite, object, Fields, field, JsonCodec}
use flare_hack.Latch.{initial}
use flare_hack.LatchClient.{
  Latch, Instance, id_of, data_fixed, envelope, action, status, command_name, commitment_payload,
}
use flare_hack.LatchClient.Envelope.{
  Reads, latch_type, command_code, handler_of, direct_reply, rows, registers,
}
use flare_hack.LatchClient.Direct.{fixed_of, envelope_of, action-handler_of}
use flare_hack.Encoding.{bytes_to_hex}
use flare_hack.Tests.Fixtures.{sample_viem, zero_digest}

abbrev claim : Json
claim = commitment_payload zero_digest

-- An object is printed as the first letter of its first member.
abbrev letter : Json → Bytes
letter (object (field (c ∷ name) v rest)) = c ∷ []
letter _ = []

abbrev fixed : Fields
fixed =
    data_fixed (id_of 1) (finite (pos 0)) latch_type (command_code status)
      (bytes_to_hex (b'c' ∷ []))

abbrev parse_letter : Bytes → Option Json
parse_letter (b ∷ []) =
    if b == b'c'
    then some claim
    else if b == b'i'
    then some (object fixed)
    else if b == b'd'
    then some (envelope (id_of 1) (bytes_to_hex (b'i' ∷ [])))
    else none
parse_letter _ = none

abbrev letters : JsonCodec
letters = record { parse = parse_letter; print = letter }

abbrev server : Instance
server = record {
  codec = letters;
  version = codes "v";
  state_version = codes "s";
  handlers = rows sample_viem letters 1000 2000 5;
}

abbrev idle_latch : Latch
idle_latch = record { enclave = initial; seq = 0 }

fixed-Reads : Reads letters (object (fixed_of server (finite (pos 0)) status claim 0))
fixed-Reads = record { bytes = (omega arith, tt); back = refl }

envelope-Reads : Reads letters (envelope_of server (finite (pos 0)) status claim 0)
envelope-Reads = record { bytes = (omega arith, tt); back = refl }

action-handler_of_example :
    let r =
      handler_of sample_viem letters 1000 2000 5 status (bytes_to_hex (letter claim)) initial in
    action server (finite (pos 0)) (command_name status) claim idle_latch
    ≡ (direct_reply letters r.0, record { enclave = r.1; seq = 1 })
action-handler_of_example =
    action-handler_of sample_viem 1000 2000 5 server (finite (pos 0)) status claim idle_latch
      (registers sample_viem letters 1000 2000 5) fixed-Reads envelope-Reads
