-- ===== src/Examples/Lines.antt =====
-- Concrete SBI lines.
use sartoriuslib.Prelude.{◌≡◌, refl, none, List, [], ◌∷◌, Bool, false, arith, ◌==◌}
use sartoriuslib.Prelude.Bytes.{Bytes}
use sartoriuslib.Errors.Result.{Result, ok}
use sartoriuslib.Transport.Fake.{FakeTransport, join}
use sartoriuslib.Transport.Fake.Buffer.{fake_transport}
use sartoriuslib.Sbi.Types.{SbiLineKind, SbiCodec}
use sartoriuslib.Sbi.Lines.{split_lines}
use sartoriuslib.Sbi.Lines.Split.{split_lines-join}
use sartoriuslib.Sbi.Client.{SbiClient, Port, new_client, detect_autoprint}
use sartoriuslib.Examples.Wire.{kinds, idle}

-- Two lines, "A\r\n" and "B\n".
abbrev payload : Bytes
payload = 65 ∷ 13 ∷ 10 ∷ 66 ∷ 10 ∷ []

abbrev two_lines : List Bytes
two_lines = (65 ∷ 13 ∷ 10 ∷ []) ∷ (66 ∷ 10 ∷ []) ∷ []

split_lines-join_example : split_lines (join two_lines) ≡ ok two_lines
split_lines-join_example = split_lines-join two_lines (
  (65 ∷ 13 ∷ [], refl, ((λ e. omega (arith, e)), ((λ e. omega (arith, e)), tt))),
  ((66 ∷ [], refl, ((λ e. omega (arith, e)), tt)), tt),
)

-- A codec that tells autoprint lines by their first byte, a plus sign.
abbrev pub plus_codec : SbiCodec (Unit {0})
plus_codec = record {
  parse_line =
      λ raw. ok (record { raw = raw; text = raw; kind = SbiLineKind.unknown; reading = none });
  is_autoprint_line = starts_with_plus;
}
  where
    starts_with_plus : Bytes → Bool
    starts_with_plus [] = false
    starts_with_plus (c ∷ rest) = c == 43

abbrev waiting : SbiClient
waiting = record new_client { pending_lines = (67 ∷ 10 ∷ []) ∷ [] }

-- A device that has sent one autoprint line.
abbrev printing : Port (FakeTransport kinds)
printing = record {
  client = new_client;
  wire = record (idle []) { read_buffer = 43 ∷ 49 ∷ 13 ∷ 10 ∷ [] };
}

abbrev detected : Result Bool × Port (FakeTransport kinds)
detected = detect_autoprint (fake_transport kinds) plus_codec 3 4 printing
