-- ===== src/Tests/ServerRuns.antt =====
-- Runs of the server and of its registry.
use flare_hack.Prelude.{ℕ, ◌≡◌, refl, some, List, [], ◌∷◌, Except, ok, err, Text, codes}
use flare_hack.Hex.{with_prefix}
use flare_hack.Trigger.{time}
use flare_hack.Encoding.{string_to_bytes32_hex}
use flare_hack.Framework.{Registered, normalize, handle, find_handler}
use flare_hack.Latch.{Enclave}
use flare_hack.Latch.Arm.{new_intent}
use flare_hack.Latch.Views.{Alike, SameAnswer}
use flare_hack.Server.{Handler, register, handle_request}
use flare_hack.Server.Laws.{handle_request-Alike}
use flare_hack.Tests.Fixtures.{sample_viem, sample_codec, zero_digest}

abbrev latch : Text
latch = with_prefix (codes "4c41544348000000000000000000000000000000000000000000000000000000")

abbrev upper_latch : Text
upper_latch = codes "0x4C41544348000000000000000000000000000000000000000000000000000000"

abbrev command : Text
command = with_prefix (codes "41524d0000000000000000000000000000000000000000000000000000000000")

abbrev one_row : List (Registered ℕ)
one_row = record { op_type = latch; op_command = command; handler = 1 } ∷ []

registers : handle (codes "LATCH") (codes "ARM") 1 [] ≡ ok one_row
unfolding handle string_to_bytes32_hex flare_hack.Hex.hex_chars
registers = refl

type_is : string_to_bytes32_hex (codes "LATCH") ≡ ok (normalize upper_latch)
unfolding string_to_bytes32_hex normalize flare_hack.Prelude.starts_with flare_hack.Hex.hex_chars
type_is = refl

command_is : string_to_bytes32_hex (codes "ARM") ≡ ok (normalize command)
unfolding string_to_bytes32_hex normalize flare_hack.Prelude.starts_with flare_hack.Hex.hex_chars
command_is = refl

abbrev two_rows : List (Registered ℕ)
two_rows =
    record { op_type = latch; op_command = command; handler = 1 }
    ∷ record { op_type = latch; op_command = command; handler = 2 }
    ∷ []

registers_again : handle (codes "LATCH") (codes "ARM") 2 one_row ≡ ok two_rows
unfolding handle string_to_bytes32_hex flare_hack.Hex.hex_chars
registers_again = refl

finds : find_handler (normalize upper_latch) (normalize command) one_row ≡ some 1
unfolding find_handler flare_hack.Prelude.◌===◌ normalize flare_hack.Prelude.starts_with
finds = refl

abbrev enclave_with : Text → ℕ → Enclave
enclave_with payload not_before = record {
  intents =
      (
        zero_digest,
        new_intent 1 0 (record {
          commitment = zero_digest;
          user_op_data = payload;
          trigger = time not_before;
          deadline = 100;
        }),
      )
      ∷ [];
  armed_total = 1;
  fired_total = 0;
}

two_secrets : Alike (enclave_with (codes "0x00") 5) (enclave_with (codes "0xff") 6)
two_secrets = record { same_views = refl; same_armed_total = refl; same_fired_total = refl }

abbrev or_none : {A : Type 0} {E : Type 0} → Except E (List A) → List A
or_none (ok rows) = rows
or_none (err e) = []

abbrev rows : List (Registered Handler)
rows = or_none (register sample_viem sample_codec 1000 5000 1)

registers_all : register sample_viem sample_codec 1000 5000 1 ≡ ok rows
unfolding register handle string_to_bytes32_hex
registers_all = refl

handle_request-Alike_example :
    SameAnswer
      (handle_request sample_codec
        (codes "0.1.0")
        zero_digest
        rows
        (codes "POST")
        (codes "/action?x")
        (codes "B")
        (enclave_with (codes "0x00") 5))
      (handle_request sample_codec
        (codes "0.1.0")
        zero_digest
        rows
        (codes "POST")
        (codes "/action?x")
        (codes "B")
        (enclave_with (codes "0xff") 6))
handle_request-Alike_example =
    handle_request-Alike sample_viem sample_codec 1000 5000 1 (codes "0.1.0") zero_digest
      (codes "POST") (codes "/action?x") (codes "B") (enclave_with (codes "0x00") 5)
      (enclave_with (codes "0xff") 6) registers_all two_secrets
