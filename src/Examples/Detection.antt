-- ===== src/Examples/Detection.antt =====
-- A concrete detection.
use sartoriuslib.Prelude.{◌≡◌, List, ◌++◌, All}
use sartoriuslib.Prelude.Int.{pos}
use sartoriuslib.Prelude.Bytes.{Bytes}
use sartoriuslib.Transport.Fake.Buffer.{fake_transport}
use sartoriuslib.Detect.{detect_protocol}
use sartoriuslib.Detect.Probes.{IsProbe, detect_protocol_probes}
use sartoriuslib.Examples.Wire.{kinds, refusing}
use sartoriuslib.Examples.Lines.{plus_codec}

detect_protocol_probes_example :
    (sent : List Bytes) × ((detect_protocol
        (fake_transport kinds)
        plus_codec
        2
        (pos 1)
        (pos 9)
        refusing).1.writes
      ≡ refusing.writes ++ sent)
    × All (IsProbe (pos 1) (pos 9)) sent
detect_protocol_probes_example = detect_protocol_probes plus_codec 2 (pos 1) (pos 9) refusing
